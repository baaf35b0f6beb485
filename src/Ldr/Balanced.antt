-- ===== src/Ldr/Balanced.antt =====
-- The loader's reference counting: opening, freeing and session cleanup keep every image's counter
-- equal to the references of the sessions.
use virtualbox_drv.Common.{
  ℕ, ◌+◌, ◌<◌, ◌≤◌, ◌^◌, ◌≡◌, refl, Option, none, some, List, [], ◌∷◌, arith, ◌==◌, if◌then◌else◌,
  Bool-cases, eq_self, Option-cases, inl, inr, leb, ◌||◌, Returns, ◌⊎◌, dec32,
}
use virtualbox_drv.Ldr.{
  Image, Ldr, LdrUsage, get_image, set_image, remove_image, find_usage, put_session,
}
use virtualbox_drv.Ldr.Free.{
  usage_count, remove_usage, lower_usage, ldr_free, free_found, free_image, deref_image,
  has_dangling,
}
use virtualbox_drv.Ldr.Balance.{
  uses, Positive, Unique, usage_count-le, remove_usage-uses, remove_usage-Positive,
  lower_usage-uses, lower_usage-Positive, get_image-set_image, get_image-remove_image,
  get_image-ptr, set_image-Unique, remove_image-Unique,
}

abbrev pub CellBalance : Option Image → (held : ℕ) → Type 0
CellBalance none held = held ≡ 0
CellBalance (some i) held = (i.usage ≡ held) × (0 < held) × (held < 2 ^ 32)

-- The counters are right for the references of one session, `us`, and those of all others, `rest`.
pub record Balanced (rest : ℕ → ℕ) (us : List LdrUsage) (is : List Image) : Type 0 where
  pub cells : (p : ℕ) → CellBalance (get_image p is) (uses p us + rest p)
  pub positive : Positive us
  pub unique : Unique is

-- The image that the search of a session's records finds.
pub find_usage-found :
    (base : ℕ) (is : List Image) (us : List LdrUsage) (i : Image)
    → Positive us
    → find_usage base is us ≡ some (some i)
    → (get_image i.ptr is ≡ some i) × (0 < usage_count i.ptr us) × (i.base ≡ base)
unfolding find_usage usage_count
find_usage-found base is [] i k e = ground arith
find_usage-found base is (u ∷ us) i k e = elim (Option-cases (get_image u.image is)) [
  | inl gone ↦ ground arith
  | inr (j, found) ↦
      ground (arith, find_usage-found base is us i k.1, get_image-ptr u.image is j found)
]

find_usage-cons :
    (base : ℕ) (is : List Image) (u : LdrUsage) (us : List LdrUsage)
    → (i : Image) × (get_image u.image is ≡ some i)
    → (r : Option Image) × (find_usage base is us ≡ some r)
    → (r : Option Image) × (find_usage base is (u ∷ us) ≡ some r)
unfolding find_usage
find_usage-cons base is u us (i, e) (r, f) = elim (Bool-cases (i.base == base)) [
  | inl t ↦ (some i, ground arith)
  | inr n ↦ (r, ground arith)
]

-- With the counters right the search meets no freed image.
pub find_usage-total :
    (base : ℕ) (is : List Image) (us : List LdrUsage)
    → ((p : ℕ) → 0 < uses p us → (i : Image) × (get_image p is ≡ some i))
    → Positive us
    → (r : Option Image) × (find_usage base is us ≡ some r)
unfolding find_usage uses
find_usage-total base is [] h k = (none, refl)
find_usage-total base is (u ∷ us) h k =
    find_usage-cons base is u us (h u.image (ground arith))
      (find_usage-total base is us (λ p o. h p (ground arith)) k.1)

module _ (rest : ℕ → ℕ) (us : List LdrUsage) (is : List Image) (b : Balanced rest us is) where
  pub held_image : (p : ℕ) → 0 < uses p us → (i : Image) × (get_image p is ≡ some i)
  held_image p h = elim (Option-cases (get_image p is)) [
    | inl e ↦ absurd (let c = rw e at (b.cells p) in omega arith)
    | inr found ↦ found
  ]

  module _ (i : Image) (found : get_image i.ptr is ≡ some i) where
    pub cell : (i.usage ≡ uses i.ptr us + rest i.ptr) × (0 < i.usage) × (i.usage < 2 ^ 32)
    cell = let c = rw found at (b.cells i.ptr) in ground (arith, c)

    -- The counter of one image changes, and the records with it.
    pub Balanced-set :
        (vs : List LdrUsage) (c : ℕ)
        → Positive vs
        → ((q : ℕ) → uses q vs + i.usage ≡ uses q us + (if i.ptr == q then c else i.usage))
        → 0 < c
        → c < 2 ^ 32
        → Balanced rest vs (set_image i.ptr (record i { usage = c }) is)
    Balanced-set vs c pos same h k = record {
      cells = λ q.
          rw (get_image-set_image i.ptr q i (record i { usage = c }) is found refl)
            (elim (Bool-cases (i.ptr == q)) [
              | inl here ↦ ground (arith, cell, same i.ptr)
              | inr other ↦ rw other (ground (arith, b.cells q, same q))
            ]);
      positive = pos;
      unique = set_image-Unique i.ptr i (record i { usage = c }) is found refl b.unique;
    }

    -- The last references go, and the image with them.
    pub Balanced-remove :
        (vs : List LdrUsage)
        → Positive vs
        → ((q : ℕ) → uses q vs + (if i.ptr == q then i.usage else 0) ≡ uses q us)
        → Balanced rest vs (remove_image i.ptr is)
    Balanced-remove vs pos same = record {
      cells = λ q. rw (get_image-remove_image i.ptr q is b.unique) (elim (Bool-cases (i.ptr == q)) [
        | inl here ↦ rw here (ground (arith, cell, same i.ptr))
        | inr other ↦ rw other (ground (arith, b.cells q, same q))
      ]);
      positive = pos;
      unique = remove_image-Unique i.ptr is b.unique;
    }

-- The loader of a session with balanced counters.
abbrev pub BalancedLdr : (ℕ → ℕ) → ℕ → Ldr → Type 0
BalancedLdr rest s l = Balanced rest (l.usage s) l.images

module _ (rest : ℕ → ℕ) (s : ℕ) (l : Ldr) (b : BalancedLdr rest s l) (i : Image)
    (found : get_image i.ptr l.images ≡ some i) (held : 0 < usage_count i.ptr (l.usage s)) where
  counts :
      (uses i.ptr (l.usage s) ≤ i.usage)
      × (i.usage < 2 ^ 32)
      × (usage_count i.ptr (l.usage s) ≤ uses i.ptr (l.usage s))
  counts =
      let c = cell rest (l.usage s) l.images b i found in
      (omega arith, omega arith, usage_count-le i.ptr (l.usage s))

  -- The first record goes, and with it the image or one reference to it.
  removed :
      BalancedLdr rest s (
        let m = put_session s (remove_usage i.ptr (l.usage s)) l in
        if leb i.usage 1 then free_image m i else deref_image m i)
      ⊎ (1 < usage_count i.ptr (l.usage s))
  unfolding free_image
  removed = elim (Bool-cases (leb (usage_count i.ptr (l.usage s)) 1)) [
    | inr many ↦ inr (ground arith)
    | inl single ↦
        let us = l.usage s in
        let f = λ (q : ℕ). remove_usage-uses i.ptr q us in
        elim (Bool-cases (leb i.usage 1)) [
          | inl gone ↦ inl (
              rw (gone, eq_self s)
                (Balanced-remove rest us l.images b i found (remove_usage i.ptr us)
                  (remove_usage-Positive i.ptr us b.positive)
                  (λ q. ground (arith, f q, counts, held))))
          | inr more ↦ inl (
              rw (more, eq_self s)
                (Balanced-set rest us l.images b i found (remove_usage i.ptr us) (dec32 i.usage)
                  (remove_usage-Positive i.ptr us b.positive)
                  (λ q. ground (arith, f q, counts, held)) (ground (arith, counts)) (omega arith)))
        ]
  ]

  lowered :
      1 < usage_count i.ptr (l.usage s)
      → BalancedLdr rest s (put_session s (lower_usage i.ptr (l.usage s)) (deref_image l i))
  lowered h =
      let us = l.usage s in
      rw (eq_self s) (
        Balanced-set rest us l.images b i found (lower_usage i.ptr us) (dec32 i.usage)
          (lower_usage-Positive i.ptr us h (omega (arith, counts)) b.positive)
          (λ q. ground (arith, lower_usage-uses i.ptr q us, counts, held))
          (ground (arith, counts, h)) (omega arith))

  free_found-Balanced : BalancedLdr rest s (free_found l s i)
  unfolding free_found
  free_found-Balanced = elim (Bool-cases (leb i.usage 1 || leb (usage_count i.ptr (l.usage s)) 1)) [
    | inl low ↦ elim (Bool-cases (has_dangling l s i)) [
      | inl keep ↦ rw (low, keep) b
      | inr drop ↦
          rw (low, drop)
            (elim removed [ inl r ↦ r | inr many ↦ absurd (ground (arith, counts, many, low)) ])
    ]
    | inr high ↦ rw high (lowered (ground arith))
  ]

-- supdrvIOCtl_LdrFree ends without a fault and keeps the counters of all images right.
pub ldr_free-Balanced :
    (rest : ℕ → ℕ) (s base : ℕ) (l : Ldr)
    → BalancedLdr rest s l
    → Returns (λ r. BalancedLdr rest s r.0) (ldr_free l s base)
unfolding ldr_free
ldr_free-Balanced rest s base l b =
    let (r, e) =
      find_usage-total base l.images (l.usage s) (held_image rest (l.usage s) l.images b)
        b.positive in
    go r e
  where
    go :
        (r : Option Image)
        → find_usage base l.images (l.usage s) ≡ some r
        → Returns (λ r. BalancedLdr rest s r.0) (ldr_free l s base)
    go none e = rw (e, ldr_free) b
    go (some i) e =
        let (found, held, at_base) = find_usage-found base l.images (l.usage s) i b.positive e in
        rw (e, ldr_free) (free_found-Balanced rest s l b i found held)
