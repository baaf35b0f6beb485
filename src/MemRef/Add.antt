-- ===== src/MemRef/Add.antt =====
-- supdrvMemAdd as an insertion into the list of references.
use virtualbox_drv.Common.{
  ◌+◌, ◌≡◌, inl, inr, refl, Bool, false, none, List, [], ◌∷◌, arith, Status, success, no_memory,
  ltb, length, Option-cases, Bool-cases, subst,
}
use virtualbox_drv.MemRef.{
  MemRef, Bundle, bundle_size, is_free, add_slot, add_bundles, mem_add, new_bundle, insert_second,
}
use virtualbox_drv.MemRef.Entries.{
  in_use, entries, occupied, WellFormed, Inserted, at, Inserted-append_left, SlotAdded,
  add_slot-SlotAdded, ChainAdded, add_bundles-ChainAdded,
}

-- No bundle has room by its counter.
abbrev pub AllFull : List Bundle → Type 0
AllFull [] = Unit {0}
AllFull (b ∷ bs) = (b.used ≡ bundle_size) × AllFull bs

-- The walk fails only if every counter is at its limit: where a counter is below it, the bundle has
-- a free entry, so the assertion "this can't be happening" is right.
add_bundles-none :
    (m : MemRef) (bs : List Bundle)
    → is_free m ≡ false
    → WellFormed bs
    → add_bundles m bs ≡ none
    → AllFull bs
unfolding add_bundles
add_bundles-none m [] h v e = tt
add_bundles-none m (b ∷ bs) h v e = elim (Bool-cases (ltb b.used bundle_size)) [
  | inl room ↦ elim (Option-cases (add_slot m b.mem)) [
    | inl miss ↦
        let s = subst (SlotAdded m b.mem) miss (add_slot-SlotAdded m b.mem h) in
        absurd (unfold occupied in ground (arith, s, v.0, room))
    | inr (ys, hit) ↦ absurd (ground arith)
  ]
  | inr full ↦ elim (Option-cases (add_bundles m bs)) [
    | inl rest ↦ (ground arith, add_bundles-none m bs h v.1 rest)
    | inr (cs, rest) ↦ absurd (ground arith)
  ]
]

new_bundle-in_use : (m : MemRef) → is_free m ≡ false → in_use (new_bundle m).mem ≡ m ∷ []
unfolding in_use
new_bundle-in_use m h = rw h

-- The outcomes of adding a reference, seen from the chain `base` of the last time the lock was taken.
pub data MemAdded (m : MemRef) (bs raced : List Bundle) : List Bundle × Status → Type 0 where
  stored :
      {cs : List Bundle}
      → Inserted m (entries bs) (entries cs)
      → WellFormed cs
      → MemAdded m bs raced (cs, success)
  extended :
      {cs : List Bundle}
      → AllFull bs
      → Inserted m (entries raced) (entries cs)
      → WellFormed cs
      → length cs ≡ length raced + 1
      → MemAdded m bs raced (cs, success)
  failed : AllFull bs → MemAdded m bs raced (raced, no_memory)

insert_second-Inserted :
    (m : MemRef) (bs : List Bundle)
    → is_free m ≡ false
    → WellFormed bs
    → Inserted m (entries bs) (entries (insert_second (new_bundle m) bs))
      × WellFormed (insert_second (new_bundle m) bs)
      × (length (insert_second (new_bundle m) bs) ≡ length bs + 1)
unfolding entries occupied
insert_second-Inserted m [] h v = (
  rw (new_bundle-in_use m h) at,
  ((refl, rw (new_bundle-in_use m h) (omega arith), omega arith), tt),
  refl,
)
insert_second-Inserted m (b ∷ bs) h v = (
  Inserted-append_left (in_use b.mem) (rw (new_bundle-in_use m h) at),
  (v.0, ((refl, rw (new_bundle-in_use m h) (omega arith), omega arith), v.1)),
  omega arith,
)

-- supdrvMemAdd puts the reference into the list of references, or fails with that list unchanged; it
-- asks for another bundle only when the counter of every bundle is at its limit.
pub mem_add-MemAdded :
    (has_memory : Bool) (race : List Bundle → List Bundle) (m : MemRef) (bs : List Bundle)
    → is_free m ≡ false
    → WellFormed bs
    → WellFormed (race bs)
    → MemAdded m bs (race bs) (mem_add has_memory race m bs)
unfolding mem_add
mem_add-MemAdded has_memory race m bs h v k = elim (Option-cases (add_bundles m bs)) [
  | inl e ↦
      rw (e, mem_add)
        (elim (Bool-cases has_memory) [
          | inl t ↦ rw t (
              let (i, w, l) = insert_second-Inserted m (race bs) h k in
              extended (add_bundles-none m bs h v e) i w l)
          | inr f ↦ rw f (failed (add_bundles-none m bs h v e))
        ])
  | inr (cs, e) ↦
      rw (e, mem_add)
        (let (i, w) = subst (ChainAdded m bs) e (add_bundles-ChainAdded m bs h v) in stored i w)
]
