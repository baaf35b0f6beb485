-- ===== src/MemRef/Release.antt =====
-- supdrvMemRelease as the removal of one reference, and the counter that it leaves as it was.
use virtualbox_drv.Common.{
  ℕ, ◌≤◌, ◌≡◌, ◌⊎◌, inl, inr, refl, Bool, true, false, Option, none, some, List, [], ◌∷◌, ◌++◌,
  arith, Status, success, no_memory, invalid_parameter, ltb, ◌==◌, length, Option-cases, Bool-cases,
  ap, subst, ◌∙◌, suc, map,
}
use virtualbox_drv.MemRef.{
  MemRef, Bundle, bundle_size, is_free, Addresses, matches, take_slot, take_bundles, mem_release,
  frees, unused, mem_add, add_bundles,
}
use virtualbox_drv.MemRef.Entries.{
  in_use, in_use-busy, in_use-free, entries, occupied, WellFormed, Inserted, at, later,
  Inserted-append_left, Inserted-append_right, length-Inserted,
}
use virtualbox_drv.MemRef.Add.{AllFull}

abbrev pub counter : Bundle → ℕ
counter b = b.used

-- No reference in a list matches.
abbrev pub NoMatch : Addresses → (ptr type : ℕ) → List MemRef → Type 0
NoMatch a ptr type [] = Unit {0}
NoMatch a ptr type (m ∷ ms) = (matches a ptr type m ≡ false) × NoMatch a ptr type ms

NoMatch-append :
    (a : Addresses) (ptr type : ℕ) (xs ys : List MemRef)
    → NoMatch a ptr type xs
    → NoMatch a ptr type ys
    → NoMatch a ptr type (xs ++ ys)
NoMatch-append a ptr type [] ys h k = k
NoMatch-append a ptr type (x ∷ xs) ys h k = (h.0, NoMatch-append a ptr type xs ys h.1 k)

matches-busy :
    (a : Addresses) (ptr type : ℕ) (m : MemRef) → matches a ptr type m ≡ true → is_free m ≡ false
matches-busy a ptr type m h = ground arith

module _ (a : Addresses) (ptr type : ℕ) where
  abbrev SlotTaken : List MemRef → Option (MemRef × List MemRef) → Type 0
  SlotTaken xs none = NoMatch a ptr type (in_use xs)
  SlotTaken xs (some (m, ys)) =
      Inserted m (in_use ys) (in_use xs) × (length ys ≡ length xs) × (matches a ptr type m ≡ true)

  abbrev consed : MemRef → Option (MemRef × List MemRef) → Option (MemRef × List MemRef)
  consed x none = none
  consed x (some (m, ys)) = some (m, x ∷ ys)

  SlotTaken-consed :
      (x : MemRef) (xs : List MemRef) (r : Option (MemRef × List MemRef))
      → matches a ptr type x ≡ false
      → SlotTaken xs r
      → SlotTaken (x ∷ xs) (consed x r)
  SlotTaken-consed x xs none miss s = elim (Bool-cases (is_free x)) [
    | inl free ↦ rw (in_use-free x xs free) s
    | inr busy ↦ rw (in_use-busy x xs busy) (miss, s)
  ]
  SlotTaken-consed x xs (some (m, ys)) miss (i, e, h) = elim (Bool-cases (is_free x)) [
    | inl free ↦ (rw (in_use-free x xs free, in_use-free x ys free) i, ap suc e, h)
    | inr busy ↦ (rw (in_use-busy x xs busy, in_use-busy x ys busy) (later i), ap suc e, h)
  ]

  take_slot-SlotTaken : (xs : List MemRef) → SlotTaken xs (take_slot a ptr type xs)
  unfolding take_slot
  take_slot-SlotTaken [] = unfold in_use in tt
  take_slot-SlotTaken (x ∷ xs) = elim (Bool-cases (matches a ptr type x)) [
    | inl hit ↦ rw hit (
      rw (in_use-busy x xs (matches-busy a ptr type x hit), in_use-free unused xs refl) at,
      refl,
      hit,
    )
    | inr miss ↦
        rw miss (SlotTaken-consed x xs (take_slot a ptr type xs) miss (take_slot-SlotTaken xs))
  ]

  abbrev ChainTaken : List Bundle → Option (MemRef × List Bundle) → Type 0
  ChainTaken bs none = NoMatch a ptr type (entries bs)
  ChainTaken bs (some (m, cs)) =
      Inserted m (entries cs) (entries bs)
      × (matches a ptr type m ≡ true)
      × WellFormed cs
      × (map counter cs ≡ map counter bs)

  abbrev chained : Bundle → Option (MemRef × List Bundle) → Option (MemRef × List Bundle)
  chained b none = none
  chained b (some (m, cs)) = some (m, b ∷ cs)

  ChainTaken-chained :
      (b : Bundle) (bs : List Bundle) (r : Option (MemRef × List Bundle))
      → WellFormed (b ∷ bs)
      → NoMatch a ptr type (in_use b.mem)
      → ChainTaken bs r
      → ChainTaken (b ∷ bs) (chained b r)
  unfolding entries
  ChainTaken-chained b bs none v miss s =
      NoMatch-append a ptr type (in_use b.mem) (entries bs) miss s
  ChainTaken-chained b bs (some (m, cs)) v miss (i, h, w, e) =
      (Inserted-append_left (in_use b.mem) i, h, (v.0, w), ap (◌∷◌ b.used) e)

  NoMatch-empty : (xs : List MemRef) → length xs ≤ 0 → NoMatch a ptr type xs
  NoMatch-empty [] h = tt
  NoMatch-empty (x ∷ xs) h = absurd (omega arith)

  ChainTaken-slot :
      (b : Bundle) (bs : List Bundle) (m : MemRef) (ys : List MemRef)
      → WellFormed (b ∷ bs)
      → SlotTaken b.mem (some (m, ys))
      → ChainTaken (b ∷ bs) (some (m, record b { mem = ys } ∷ bs))
  unfolding entries occupied
  ChainTaken-slot b bs m ys v (i, e, h) = (
    Inserted-append_right (entries bs) i,
    h,
    ((e ∙ v.0.0, omega (arith, length-Inserted i, v.0), v.0.2), v.1),
    refl,
  )

  take_bundles-ChainTaken :
      (bs : List Bundle) → WellFormed bs → ChainTaken bs (take_bundles a ptr type bs)
  unfolding take_bundles
  take_bundles-ChainTaken [] v = unfold entries in tt
  take_bundles-ChainTaken (b ∷ bs) v =
      let rest = take_bundles-ChainTaken bs v.1 in
      elim (Bool-cases (ltb 0 b.used)) [
        | inl some_used ↦ elim (Option-cases (take_slot a ptr type b.mem)) [
          | inl e ↦
              rw (some_used, e)
                (ChainTaken-chained b bs (take_bundles a ptr type bs) v
                  (subst (SlotTaken b.mem) e (take_slot-SlotTaken b.mem)) rest)
          | inr ((m, ys), e) ↦
              rw (some_used, e)
                (ChainTaken-slot b bs m ys v
                  (subst (SlotTaken b.mem) e (take_slot-SlotTaken b.mem)))
        ]
        | inr none_used ↦ rw none_used (
            ChainTaken-chained b bs (take_bundles a ptr type bs) v
              (NoMatch-empty (in_use b.mem) (unfold occupied in ground (arith, v.0))) rest)
      ]

  -- The outcomes of a release: one matching reference is removed and its memory objects are freed,
  -- the mapping first; or the address is NULL or nothing matches, and nothing changes.
  pub data MemReleased (bs : List Bundle) : List Bundle × List (ℕ × Bool) × Status → Type 0 where
    freed :
        {m : MemRef} {cs : List Bundle}
        → Inserted m (entries cs) (entries bs)
        → matches a ptr type m ≡ true
        → WellFormed cs
        → map counter cs ≡ map counter bs
        → MemReleased bs (cs, frees m, success)
    absent :
        (ptr ≡ 0) ⊎ NoMatch a ptr type (entries bs) → MemReleased bs (bs, [], invalid_parameter)

  -- supdrvMemRelease removes one reference with the given type and address, or reports that there is
  -- none. It leaves the counter of every bundle as it was.
  pub mem_release-MemReleased :
      (bs : List Bundle) → WellFormed bs → MemReleased bs (mem_release a ptr type bs)
  unfolding mem_release
  mem_release-MemReleased bs v = elim (Bool-cases (ptr == 0)) [
    | inl null ↦ rw null (absent (inl (ground arith)))
    | inr some_ptr ↦ elim (Option-cases (take_bundles a ptr type bs)) [
      | inl e ↦
          rw (some_ptr, e) (absent (inr (subst (ChainTaken bs) e (take_bundles-ChainTaken bs v))))
      | inr ((m, cs), e) ↦
          rw (some_ptr, e)
            (let t = subst (ChainTaken bs) e (take_bundles-ChainTaken bs v) in
              freed t.0 t.1 t.2 t.3)
    ]
  ]

AllFull-map : (bs cs : List Bundle) → map counter cs ≡ map counter bs → AllFull bs → AllFull cs
AllFull-map [] [] e h = tt
AllFull-map [] (c ∷ cs) e h = absurd (cc)
AllFull-map (b ∷ bs) [] e h = absurd (cc)
AllFull-map (b ∷ bs) (c ∷ cs) e h = (ground arith, AllFull-map bs cs (ground arith) h.1)

add_bundles-full : (m : MemRef) (bs : List Bundle) → AllFull bs → add_bundles m bs ≡ none
unfolding add_bundles
add_bundles-full m [] h = refl
add_bundles-full m (b ∷ bs) h =
    let full : ltb b.used bundle_size ≡ false = ground arith in rw (full, add_bundles-full m bs h.1)

released_chain :
    (a : Addresses) (ptr type : ℕ) (bs : List Bundle) (r : List Bundle × List (ℕ × Bool) × Status)
    → MemReleased a ptr type bs r
    → map counter r.0 ≡ map counter bs
released_chain a ptr type bs r (freed i h w e) = e
released_chain a ptr type bs r (absent h) = refl

-- Once the counter of every bundle is at its limit, a release gives no entry back: the next reference
-- needs a new bundle, and is refused if there is no memory for one, whatever was released.
pub mem_release-no_room :
    (a : Addresses) (ptr type : ℕ) (race : List Bundle → List Bundle) (m : MemRef)
    (bs : List Bundle)
    → WellFormed bs
    → AllFull bs
    → let cs = (mem_release a ptr type bs).0 in mem_add false race m cs ≡ (race cs, no_memory)
unfolding mem_add
mem_release-no_room a ptr type race m bs v full =
    let r = mem_release a ptr type bs in
    let e = released_chain a ptr type bs r (mem_release-MemReleased a ptr type bs v) in
    rw (add_bundles-full m r.0 (AllFull-map bs r.0 e full), mem_add)
