-- ===== src/Ldr.antt =====
-- The image loader of vboxdrv/SUPDrv.c: the loaded images, the usage records of the sessions, and
-- the VMMR0 entry points. All of it is guarded by one mutex, so every operation is one step.
pub mod Open
pub mod Balance
pub mod Balanced
pub mod Cleanup
pub mod Counting
pub mod Load
pub mod Loading
pub mod Validated
pub mod Free
pub mod Symbols
pub mod Lookup
mod Tests
use virtualbox_drv.Common.{
  ℕ, ◌+◌, ◌-◌, ◌^◌, ◌%◌, Bool, true, false, not, ◌&&◌, Option, none, some, List, [], ◌∷◌, Status,
  success, invalid_parameter, internal_error_5, ltb, ◌==◌, if◌then◌else◌, ◌>>=◌, inc32,
}
use virtualbox_drv.Obj.{DevExt}

-- The values of SUPDRVLDRIMAGE::uState.
pub data ImageState : Type 0 where
  opened loaded freed : ImageState

-- SUPLDRSYM.
pub record Symbol : Type 0 where
  pub off_name : ℕ
  pub off_symbol : ℕ

-- SUPDRVLDRIMAGE. `ptr` is the record's address and `base` is `pvImage`; the string table is its
-- bytes, and `cb_strtab` their number.
pub record Image : Type 0 where
  pub ptr : ℕ
  pub base : ℕ
  pub alloc : ℕ
  pub size_tabs : ℕ
  pub size_bits : ℕ
  pub symbols : List Symbol
  pub strtab : List ℕ
  pub cb_strtab : ℕ
  pub module_init : ℕ
  pub module_term : ℕ
  pub service : ℕ
  pub state : ImageState
  pub usage : ℕ
  pub native : Bool
  pub name : List ℕ

-- SUPDRVLDRUSAGE.
pub record LdrUsage : Type 0 where
  pub image : ℕ
  pub count : ℕ

-- The VMMR0 entry points of the device extension.
pub record EntryPoints : Type 0 where
  pub vmmr0 : ℕ
  pub entry_int : ℕ
  pub entry_fast : ℕ
  pub entry_ex : ℕ

-- What the loader mutex protects, with the object registry, which the loader reads. `usage` gives the
-- records of the session at an address; `terms` lists the module termination calls, latest first.
pub record Ldr : Type 0 where
  pub images : List Image
  pub usage : ℕ → List LdrUsage
  pub entry : EntryPoints
  pub dev : DevExt
  pub terms : List ℕ

abbrev pub no_entry : EntryPoints
no_entry = record { vmmr0 = 0; entry_int = 0; entry_fast = 0; entry_ex = 0 }

-- The image record at an address; `none` if it is not allocated.
unfoldable pub get_image : ℕ → List Image → Option Image
get_image p [] = none
get_image p (i ∷ is) = if i.ptr == p then some i else get_image p is

unfoldable pub set_image : ℕ → Image → List Image → List Image
set_image p j [] = []
set_image p j (i ∷ is) = if i.ptr == p then j ∷ is else i ∷ set_image p j is

unfoldable pub remove_image : ℕ → List Image → List Image
remove_image p [] = []
remove_image p (i ∷ is) = if i.ptr == p then is else i ∷ remove_image p is

-- The walk over a session's usage records to the image at a base address. A record of an image that
-- is no longer allocated is a fault.
unfoldable pub find_usage : ℕ → List Image → List LdrUsage → Option (Option Image)
find_usage base is [] = some none
find_usage base is (u ∷ us) =
    let rest = find_usage base is us in
    (elim (get_image u.image is) [
      | none ↦ none
      | some i ↦ if i.base == base then some (some i) else rest
    ])

-- The usage records with the count of an image raised, if there is a record of it.
unfoldable pub raise_usage : ℕ → List LdrUsage → Option (List LdrUsage)
raise_usage p [] = none
raise_usage p (u ∷ us) =
    let rest = raise_usage p us in
    if u.image == p
    then some (record u { count = inc32 u.count } ∷ us)
    else (elim rest [ none ↦ none | some vs ↦ some (u ∷ vs) ])

-- supdrvLdrAddUsage. `has_memory` is the outcome of the allocation of a record.
unfoldable pub ldr_add_usage : Bool → ℕ → List LdrUsage → List LdrUsage × Status
ldr_add_usage has_memory p us = elim (raise_usage p us) [
  | some vs ↦ (vs, success)
  | none ↦
      if has_memory then (record { image = p; count = 1 } ∷ us, success) else (us, internal_error_5)
]

-- The write to the usage records of one session.
abbrev pub put_session : ℕ → List LdrUsage → Ldr → Ldr
put_session s us l = record l { usage = λ t. if s == t then us else l.usage t }

-- `(uintptr_t)pv - (uintptr_t)base < size` on 64-bit addresses.
abbrev pub is_inside : (base size pv : ℕ) → Bool
is_inside base size pv = ltb ((pv + 2 ^ 64 - base) % 2 ^ 64) size

-- supdrvLdrSetVMMR0EPs.
unfoldable pub set_vmmr0_eps : EntryPoints → EntryPoints → EntryPoints × Status
set_vmmr0_eps old new =
    if old.vmmr0 == 0
    then (new, success)
    else if old.vmmr0 == new.vmmr0
        && (old.entry_int == new.entry_int
            && (old.entry_fast == new.entry_fast && old.entry_ex == new.entry_ex))
    then (old, success)
    else (old, invalid_parameter)

-- supdrvLdrUnsetVMMR0EPs.
abbrev pub unset_vmmr0_eps : EntryPoints → EntryPoints
unset_vmmr0_eps old = no_entry
