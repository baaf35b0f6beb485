-- ===== src/MemRef.antt =====
-- The memory references of a session in vboxdrv/SUPDrv.c: supdrvMemAdd, supdrvMemRelease and the
-- memory part of supdrvCleanupSession over the session's chain of bundles.
pub mod Add
pub mod Cleanup
pub mod Entries
pub mod Release
mod Tests
use virtualbox_drv.Common.{
  ℕ, zero, suc, ◌+◌, ◌-◌, ◌^◌, ◌%◌, Bool, true, false, not, ◌&&◌, ◌||◌, Option, none, some, List,
  [], ◌∷◌, ◌++◌, Status, success, invalid_parameter, no_memory, ltb, ◌==◌, if◌then◌else◌, inc32,
  replicate,
}

-- SUPDRVMEMREFTYPE, by its values.
abbrev pub type_unused : ℕ
type_unused = 0

-- SUPDRVMEMREF. The handle 0 is NIL_RTR0MEMOBJ.
pub record MemRef : Type 0 where
  pub mem_obj : ℕ
  pub map_obj : ℕ
  pub type : ℕ

-- SUPDRVBUNDLE; the chain is a list, with the bundle inside the session first.
pub record Bundle : Type 0 where
  pub mem : List MemRef
  pub used : ℕ

abbrev pub bundle_size : ℕ
bundle_size = 64

abbrev pub unused : MemRef
unused = record { mem_obj = 0; map_obj = 0; type = type_unused }

abbrev pub is_free : MemRef → Bool
is_free m = m.mem_obj == 0

-- The first free entry of a bundle takes the reference.
unfoldable pub add_slot : MemRef → List MemRef → Option (List MemRef)
add_slot m [] = none
add_slot m (x ∷ xs) =
    let rest = add_slot m xs in
    if is_free x then some (m ∷ xs) else (elim rest [ none ↦ none | some ys ↦ some (x ∷ ys) ])

-- The walk over the bundles: only one whose counter is below its size is looked into.
unfoldable pub add_bundles : MemRef → List Bundle → Option (List Bundle)
add_bundles m [] = none
add_bundles m (b ∷ bs) =
    let rest = add_bundles m bs in
    let later : Option (List Bundle) = elim rest [ none ↦ none | some cs ↦ some (b ∷ cs) ] in
    if ltb b.used bundle_size
    then (elim (add_slot m b.mem) [
      | some ys ↦ some (record { mem = ys; used = inc32 b.used } ∷ bs)
      | none ↦ later
    ])
    else later

-- A new bundle, its last entry taken.
abbrev pub new_bundle : MemRef → Bundle
new_bundle m = record { mem = replicate 63 unused ++ m ∷ []; used = 1 }

-- It goes behind the first bundle.
abbrev pub insert_second : Bundle → List Bundle → List Bundle
insert_second n [] = n ∷ []
insert_second n (b ∷ bs) = b ∷ n ∷ bs

-- supdrvMemAdd. `has_memory` is the outcome of the allocation, and `race` what other threads do to
-- the chain while the lock is left for it.
unfoldable pub mem_add :
    (has_memory : Bool) (race : List Bundle → List Bundle)
    → MemRef
    → List Bundle
    → List Bundle × Status
mem_add has_memory race m bs = elim (add_bundles m bs) [
  | some cs ↦ (cs, success)
  | none ↦
      if has_memory then (insert_second (new_bundle m) (race bs), success) else (race bs, no_memory)
]

-- Where memory objects are mapped (RTR0MemObjAddress and RTR0MemObjAddressR3).
pub record Addresses : Type 0 where
  pub r0 : ℕ → ℕ
  pub r3 : ℕ → ℕ

abbrev pub matches : Addresses → (ptr type : ℕ) → MemRef → Bool
matches a ptr type m =
    m.type == type
    && (not (is_free m)
        && (a.r0 m.mem_obj == ptr || (not (m.map_obj == 0) && a.r3 m.map_obj == ptr)))

-- The first entry of a bundle that matches is copied and cleared.
unfoldable pub take_slot : Addresses → (ptr type : ℕ) → List MemRef → Option (MemRef × List MemRef)
take_slot a ptr type [] = none
take_slot a ptr type (x ∷ xs) =
    let rest = take_slot a ptr type xs in
    if matches a ptr type x
    then some (x, unused ∷ xs)
    else (elim rest [ none ↦ none | some (m, ys) ↦ some (m, x ∷ ys) ])

-- The search over the bundles; the counter `used` is read and not written.
unfoldable pub take_bundles :
    Addresses → (ptr type : ℕ) → List Bundle → Option (MemRef × List Bundle)
take_bundles a ptr type [] = none
take_bundles a ptr type (b ∷ bs) =
    let rest = take_bundles a ptr type bs in
    let later : Option (MemRef × List Bundle) = elim rest [
      | none ↦ none
      | some (m, cs) ↦ some (m, b ∷ cs)
    ] in
    if ltb 0 b.used
    then (elim (take_slot a ptr type b.mem) [
      | some (m, ys) ↦ some (m, record b { mem = ys } ∷ bs)
      | none ↦ later
    ])
    else later

-- The calls of RTR0MemObjFree that give an entry back: the handle and `fFreeMappings`.
abbrev pub frees : MemRef → List (ℕ × Bool)
frees m =
    (if m.map_obj == 0 then [] else (m.map_obj, false) ∷ [])
    ++ (if is_free m then [] else (m.mem_obj, true) ∷ [])

-- supdrvMemRelease: the chain, the calls of RTR0MemObjFree, and the status.
unfoldable pub mem_release :
    Addresses → (ptr type : ℕ) → List Bundle → List Bundle × List (ℕ × Bool) × Status
mem_release a ptr type bs =
    if ptr == 0 then (bs, [], invalid_parameter) else (elim (take_bundles a ptr type bs) [
      | some (m, cs) ↦ (cs, frees m, success)
      | none ↦ (bs, [], invalid_parameter)
    ])

-- The memory part of supdrvCleanupSession: the handles are freed entry by entry.
unfoldable pub cleanup_entries : List MemRef → List (ℕ × Bool)
cleanup_entries [] = []
cleanup_entries (m ∷ ms) = (if is_free m then [] else frees m) ++ cleanup_entries ms

unfoldable pub cleanup_memory : List Bundle → List (ℕ × Bool)
cleanup_memory [] = []
cleanup_memory (b ∷ bs) = cleanup_entries b.mem ++ cleanup_memory bs
