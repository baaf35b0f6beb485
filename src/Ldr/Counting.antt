-- ===== src/Ldr/Counting.antt =====
-- Opening an image and the session cleanup keep the counters of the images right; a symbol query
-- through the inter-driver interface does not.
use virtualbox_drv.Common.{
  ℕ, ◌+◌, ◌<◌, ◌^◌, ◌≡◌, refl, true, none, some, List, [], ◌∷◌, arith, ◌==◌, Bool-cases, eq_self,
  Option-cases, inl, inr, inc32, rt_success,
}
use virtualbox_drv.Ldr.{
  Image, Ldr, LdrUsage, Symbol, get_image, set_image, raise_usage, ldr_add_usage,
}
use virtualbox_drv.Ldr.Open.{
  same_name, OpenEnv, OpenReq, find_name, ldr_open, open_again, open_new, new_image, place_image,
}
use virtualbox_drv.Ldr.Free.{is_loaded}
use virtualbox_drv.Ldr.Symbols.{idc_get_symbol, find_symbol}
use virtualbox_drv.Ldr.Balance.{one, uses, Positive, Unique, raise_usage-uses, raise_usage-Positive}
use virtualbox_drv.Ldr.Balanced.{Balanced, BalancedLdr, cell, Balanced-set}

-- With memory for a record, supdrvLdrAddUsage adds one reference to the image.
pub ldr_add_usage-uses :
    (p q : ℕ) (us : List LdrUsage)
    → uses p us + 1 < 2 ^ 32
    → uses q (ldr_add_usage true p us).0 ≡ uses q us + one p q
unfolding ldr_add_usage
ldr_add_usage-uses p q us h = elim (Option-cases (raise_usage p us)) [
  | inl e ↦ rw (e, ldr_add_usage) (unfold uses in omega arith)
  | inr (vs, e) ↦ rw (e, ldr_add_usage) (raise_usage-uses p q us vs e h)
]

pub ldr_add_usage-Positive :
    (p : ℕ) (us : List LdrUsage)
    → uses p us + 1 < 2 ^ 32
    → Positive us
    → Positive (ldr_add_usage true p us).0
unfolding ldr_add_usage
ldr_add_usage-Positive p us h k = elim (Option-cases (raise_usage p us)) [
  | inl e ↦ rw (e, ldr_add_usage) (omega arith, k)
  | inr (vs, e) ↦ rw (e, ldr_add_usage) (raise_usage-Positive p us vs e h k)
]

-- The image that is found by name is an allocated one.
find_name-get_image :
    (n : List ℕ) (is : List Image) (i : Image)
    → Unique is
    → find_name n is ≡ some i
    → get_image i.ptr is ≡ some i
unfolding find_name get_image
find_name-get_image n [] i u e = ground arith
find_name-get_image n (k ∷ is) i u e = elim (Bool-cases (same_name k.name n)) [
  | inl hit ↦ let same : k ≡ i = ground arith in rw (← same, eq_self k.ptr)
  | inr miss ↦ ground (arith, find_name-get_image n is i u.1)
]

-- What a call of LdrOpen may rely on: memory for the usage record, a new address for a new image,
-- and counters below the limit of their 32 bits.
pub record OpenRoom (env : OpenEnv) (l : Ldr) : Type 0 where
  pub memory : env.usage_memory ≡ true
  pub fresh : get_image env.fresh l.images ≡ none
  pub room : (p : ℕ) (i : Image) → get_image p l.images ≡ some i → i.usage + 1 < 2 ^ 32

-- A new image with one reference.
Balanced-new :
    (rest : ℕ → ℕ) (us : List LdrUsage) (is : List Image) (i : Image)
    → Balanced rest us is
    → get_image i.ptr is ≡ none
    → i.usage ≡ 1
    → Balanced rest (ldr_add_usage true i.ptr us).0 (i ∷ is)
unfolding get_image
Balanced-new rest us is i b free single =
    let c = rw free at (b.cells i.ptr) in
    let f = λ (q : ℕ). ldr_add_usage-uses i.ptr q us (omega arith) in
    record {
      cells = λ q. elim (Bool-cases (i.ptr == q)) [
        | inl here ↦ rw here (ground (arith, f q, c))
        | inr other ↦
            let same : uses q us + rest q ≡ uses q (ldr_add_usage true i.ptr us).0 + rest q =
              ground (arith, f q) in
            rw (other, ← same) (b.cells q)
      ];
      positive = ldr_add_usage-Positive i.ptr us (omega arith) b.positive;
      unique = (free, b.unique);
    }

-- One reference more on an image that is there.
Balanced-again :
    (rest : ℕ → ℕ) (us : List LdrUsage) (is : List Image) (i : Image)
    → Balanced rest us is
    → get_image i.ptr is ≡ some i
    → i.usage + 1 < 2 ^ 32
    → Balanced rest
        (ldr_add_usage true i.ptr us).0
        (set_image i.ptr (record i { usage = inc32 i.usage }) is)
Balanced-again rest us is i b found room =
    let c = cell rest us is b i found in
    let f = λ (q : ℕ). ldr_add_usage-uses i.ptr q us (omega arith) in
    Balanced-set rest us is b i found (ldr_add_usage true i.ptr us).0 (inc32 i.usage)
      (ldr_add_usage-Positive i.ptr us (omega arith) b.positive) (λ q. ground (arith, f q))
      (omega arith) (omega arith)

open_new-Balanced :
    (rest : ℕ → ℕ) (env : OpenEnv) (l : Ldr) (s : ℕ) (req : OpenReq)
    → BalancedLdr rest s l
    → OpenRoom env l
    → BalancedLdr rest s (open_new env l s req).0
unfolding open_new new_image place_image
open_new-Balanced rest env l s req b o = elim (Bool-cases (env.fresh == 0)) [
  | inl null ↦ rw (null, open_new) b
  | inr memory ↦ elim (Bool-cases (rt_success (place_image env).3)) [
    | inr fails ↦ rw (memory, fails, open_new) b
    | inl placed ↦
        rw (memory, placed, open_new, o.memory, eq_self s)
          (Balanced-new rest (l.usage s) l.images
            (new_image env req (place_image env).0 (place_image env).1 (place_image env).2) b
            o.fresh refl)
  ]
]

-- supdrvIOCtl_LdrOpen keeps the counters of all images right, if there is memory for the usage record,
-- a new image gets an address that no image has, and all counters are below 2^32 - 1.
pub ldr_open-Balanced :
    (rest : ℕ → ℕ) (env : OpenEnv) (l : Ldr) (s : ℕ) (req : OpenReq)
    → BalancedLdr rest s l
    → OpenRoom env l
    → BalancedLdr rest s (ldr_open env l s req).0
unfolding ldr_open open_again
ldr_open-Balanced rest env l s req b o = elim (Option-cases (find_name req.name l.images)) [
  | inl e ↦ rw (e, ldr_open) (open_new-Balanced rest env l s req b o)
  | inr (i, e) ↦
      let found = find_name-get_image req.name l.images i b.unique e in
      rw (e, ldr_open, open_again, o.memory, eq_self s)
        (Balanced-again rest (l.usage s) l.images i b found (o.room i.ptr i found))
]

-- Where supdrvIDC_LdrGetSymbol finds a symbol of a loaded image and there is memory for a usage record,
-- the session gets one reference to the image more and the image's counter, which is below 2^32 - 1,
-- stays as it was, so that counters that were balanced are balanced no more.
pub idc_get_symbol-unbalanced :
    (rest : ℕ → ℕ) (l : Ldr) (s : ℕ) (mod_name name : List ℕ) (i : Image) (y : Symbol)
    → BalancedLdr rest s l
    → find_name mod_name l.images ≡ some i
    → is_loaded i.state ≡ true
    → find_symbol i name i.symbols ≡ some y
    → i.usage + 1 < 2 ^ 32
    → let r = idc_get_symbol true l s mod_name name in
      (r.0.images ≡ l.images)
      × (uses i.ptr (r.0.usage s) ≡ uses i.ptr (l.usage s) + 1)
      × ((BalancedLdr rest s r.0) → ⊥)
unfolding idc_get_symbol
idc_get_symbol-unbalanced rest l s mod_name name i y b e ready f room =
    let found = find_name-get_image mod_name l.images i b.unique e in
    let c = cell rest (l.usage s) l.images b i found in
    let more = ldr_add_usage-uses i.ptr i.ptr (l.usage s) (omega arith) in
    rw (e, idc_get_symbol, ready, f, eq_self s)
      (
        refl,
        ground (arith, more),
        λ b'.
            let c' = cell rest (ldr_add_usage true i.ptr (l.usage s)).0 l.images b' i found in
            ground (arith, more, c, c'),
      )
