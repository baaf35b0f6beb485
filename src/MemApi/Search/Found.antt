-- ===== src/MemApi/Search/Found.antt =====
-- The searches of vboxdrv/SUPDrv.c for a memory object end with a reference of the session that passes
-- the test.
use virtualbox_drv.Common.{
  ◌≡◌, refl, inl, inr, Bool, true, false, Option, none, some, List, [], ◌∷◌, ◌++◌, ltb, Bool-cases,
  Option-cases, if_intro, subst,
}
use virtualbox_drv.MemApi.Search.{find_slot, find_first, find_last}
use virtualbox_drv.MemRef.{MemRef, Bundle, is_free}
use virtualbox_drv.MemRef.Entries.{
  in_use, in_use-busy, in_use-free, entries, Inserted, at, later, Inserted-append_left,
  Inserted-append_right,
}

-- A reference of a list.
abbrev pub Member : MemRef → List MemRef → Type 0
Member m ms = (ns : List MemRef) × Inserted m ns ms

module _ (f : MemRef → Bool) (busy : (m : MemRef) → f m ≡ true → is_free m ≡ false) where
  abbrev pub Found : List MemRef → Option MemRef → Type 0
  Found ms none = Unit {0}
  Found ms (some m) = (f m ≡ true) × Member m ms

  Found-later : (x : MemRef) (ms : List MemRef) (r : Option MemRef) → Found ms r → Found (x ∷ ms) r
  Found-later x ms none h = tt
  Found-later x ms (some m) (h, (ns, i)) = (h, (x ∷ ns, later i))

  find_slot-Found : (ms : List MemRef) → Found (in_use ms) (find_slot f ms)
  unfolding find_slot
  find_slot-Found [] = tt
  find_slot-Found (m ∷ ms) = elim (Bool-cases (f m)) [
    | inl hit ↦ rw (hit, in_use-busy m ms (busy m hit)) (hit, (in_use ms, at))
    | inr miss ↦ elim (Bool-cases (is_free m)) [
      | inl free ↦ rw (miss, in_use-free m ms free) (find_slot-Found ms)
      | inr used ↦
          rw (miss, in_use-busy m ms used) (Found-later m (in_use ms) _ (find_slot-Found ms))
    ]
  ]

  Found-left : (ms ns : List MemRef) (r : Option MemRef) → Found ms r → Found (ms ++ ns) r
  Found-left ms ns none h = tt
  Found-left ms ns (some m) (h, (ks, i)) = (h, (ks ++ ns, Inserted-append_right ns i))

  Found-right : (ms ns : List MemRef) (r : Option MemRef) → Found ns r → Found (ms ++ ns) r
  Found-right ms ns none h = tt
  Found-right ms ns (some m) (h, (ks, i)) = (h, (ms ++ ks, Inserted-append_left ms i))

  pub find_last-Found :
      (all : List MemRef) (bs : List Bundle) (found : Option MemRef)
      → ((r : Option MemRef) → Found (entries bs) r → Found all r)
      → Found all found
      → Found all (find_last f bs found)
  unfolding find_last entries
  find_last-Found all [] found inc h = h
  find_last-Found all (b ∷ bs) found inc h =
      find_last-Found all bs _ (λ r k. inc r (Found-right (in_use b.mem) (entries bs) r k))
        (if_intro (Found all) (ltb 0 b.used) _ _
          (λ used.
            found_intro (find_slot f b.mem)
              (λ m e. inc (some m) (
                Found-left (in_use b.mem) (entries bs) (some m)
                  (subst (Found (in_use b.mem)) e (find_slot-Found b.mem))))
              h)
          (λ empty. h))
    where
      found_intro :
          (r : Option MemRef)
          → ((m : MemRef) → r ≡ some m → Found all (some m))
          → Found all found
          → Found all (elim r [ some m ↦ some m | none ↦ found ])
      found_intro none k h = h
      found_intro (some m) k h = k m refl

  pub find_first-Found : (bs : List Bundle) → Found (entries bs) (find_first f bs)
  unfolding find_first entries
  find_first-Found [] = tt
  find_first-Found (b ∷ bs) =
      let rest = Found-right (in_use b.mem) (entries bs) (find_first f bs) (find_first-Found bs) in
      elim (Bool-cases (ltb 0 b.used)) [
        | inr empty ↦ rw empty rest
        | inl used ↦ elim (Option-cases (find_slot f b.mem)) [
          | inl e ↦ rw (used, e) rest
          | inr (m, e) ↦
              rw (used, e)
                (Found-left (in_use b.mem) (entries bs) (some m)
                  (subst (Found (in_use b.mem)) e (find_slot-Found b.mem)))
        ]
      ]
