-- ===== src/MemApi/Search.antt =====
-- SUPR0MemGetPhys, SUPR0PageMapKernel and SUPR0PageProtect of vboxdrv/SUPDrv.c: searches for a memory
-- object of the session by its address, and what is asked of the runtime then.
pub mod Found
pub mod Protection
pub mod Ranges
use virtualbox_drv.Common.{
  ℕ, ◌+◌, ◌/◌, ◌%◌, ◌^◌, Bool, true, false, not, ◌&&◌, ◌||◌, Option, none, some, List, [], ◌∷◌,
  Status, success, invalid_parameter, invalid_pointer, rt_success, ltb, leb, ◌==◌, if◌then◌else◌,
}
use virtualbox_drv.MemApi.{MemEnv, get_pages, page_size, type_locked, type_mem, type_page}
use virtualbox_drv.MemRef.{MemRef, Bundle, Addresses, is_free, matches}
use virtualbox_drv.Obj.{Session, is_session_valid}

-- The first entry of a bundle that passes a test.
unfoldable pub find_slot : (MemRef → Bool) → List MemRef → Option MemRef
find_slot f [] = none
find_slot f (m ∷ ms) = let rest = find_slot f ms in if f m then some m else rest

-- The search of SUPR0MemGetPhys ends at the first entry of the chain.
unfoldable pub find_first : (MemRef → Bool) → List Bundle → Option MemRef
find_first f [] = none
find_first f (b ∷ bs) =
    let rest = find_first f bs in
    if ltb 0 b.used then (elim (find_slot f b.mem) [ some m ↦ some m | none ↦ rest ]) else rest

-- The searches of the other two leave only the inner loop, so that a later bundle overrides.
unfoldable pub find_last : (MemRef → Bool) → List Bundle → Option MemRef → Option MemRef
find_last f [] found = found
find_last f (b ∷ bs) found =
    find_last f bs (
      if ltb 0 b.used then (elim (find_slot f b.mem) [ some m ↦ some m | none ↦ found ]) else found)

-- SUPR0MemGetPhys: the status and the addresses of the pages.
unfoldable pub mem_get_phys :
    MemEnv → Session → (ptr : ℕ) (to_pages : Bool) → List Bundle → Status × List ℕ
mem_get_phys env x ptr to_pages bs =
    if not (is_session_valid x)
    then (invalid_parameter, [])
    else if not to_pages
    then (invalid_pointer, [])
    else if ptr == 0
    then (invalid_parameter, [])
    else (elim (find_first (matches env.addresses ptr type_mem) bs) [
      | some m ↦ (success, get_pages env m.mem_obj (env.size m.mem_obj / page_size) [])
      | none ↦ (invalid_parameter, [])
    ])

-- The test of the range of a memory object; the sum is of 32-bit numbers.
abbrev pub is_in_range : (off sub size : ℕ) → Bool
is_in_range off sub size = ltb off size && (leb sub size && leb ((off + sub) % 2 ^ 32) size)

-- What SUPR0PageMapKernel looks for.
abbrev pub is_mappable : Addresses → (r3 : ℕ) → MemRef → Bool
is_mappable a r3 m =
    (m.type == type_page && (not (is_free m) && (not (m.map_obj == 0) && a.r3 m.map_obj == r3)))
    || (m.type == type_locked && (not (is_free m) && (m.map_obj == 0 && a.r3 m.mem_obj == r3)))

-- A range of a memory object.
pub record Range : Type 0 where
  pub object : ℕ
  pub off : ℕ
  pub sub : ℕ

-- What RTR0MemObjMapKernelEx answers: the status and the address of the mapping.
pub record KernelMap : Type 0 where
  pub status : Status
  pub address : ℕ

-- SUPR0PageMapKernel: what is asked of the runtime, the status, and the address. `none` is the write
-- through a pointer that may be NULL, which nothing has checked.
unfoldable pub page_map_kernel :
    MemEnv
    → (Range → KernelMap)
    → Session
    → (r3 off sub flags : ℕ) (to_r0 : Bool) → List Bundle
    → Option (Option Range × Status × Option ℕ)
page_map_kernel env kernel x r3 off sub flags to_r0 bs =
    if not (is_session_valid x)
    then some (none, invalid_parameter, none)
    else if not (flags == 0)
    then some (none, invalid_parameter, none)
    else if not (off % page_size == 0)
    then some (none, invalid_parameter, none)
    else if not (sub % page_size == 0)
    then some (none, invalid_parameter, none)
    else if sub == 0
    then some (none, invalid_parameter, none)
    else (elim (find_last (is_mappable env.addresses r3) bs none) [
      | none ↦ some (none, invalid_parameter, none)
      | some m ↦
          if is_in_range off sub (env.size m.mem_obj)
          then (let r : Range = record { object = m.mem_obj; off = off; sub = sub } in
              let k = kernel r in
              if not (rt_success k.status)
              then some (some r, k.status, none)
              else if to_r0
              then some (some r, k.status, some k.address)
              else none)
          else some (none, invalid_parameter, none)
    ])

-- What SUPR0PageProtect looks for: a page allocation at the addresses that are given.
abbrev pub is_protectable : Addresses → (r3 r0 : ℕ) → MemRef → Bool
is_protectable a r3 r0 m =
    m.type == type_page
    && (not (is_free m)
        && ((not (m.map_obj == 0) || r3 == 0)
            && ((r0 == 0 || a.r0 m.mem_obj == r0) && (r3 == 0 || a.r3 m.map_obj == r3))))

-- The changes of protection: of the mapping, and, if that succeeds, of the object.
unfoldable pub protect_objects : (Range → Status) → (h0 h3 off sub : ℕ) → List Range × Status
protect_objects prot h0 h3 off sub =
    let r3 : Range = record { object = h3; off = off; sub = sub } in
    let r0 : Range = record { object = h0; off = off; sub = sub } in
    if h3 == 0
    then (if h0 == 0 then ([], success) else (r0 ∷ [], prot r0))
    else if not (h0 == 0) && rt_success (prot r3)
    then (r3 ∷ r0 ∷ [], prot r0)
    else (r3 ∷ [], prot r3)

-- SUPR0PageProtect: the ranges whose protection is changed, and the status.
unfoldable pub page_protect :
    MemEnv
    → (Range → Status)
    → Session
    → (r3 r0 off sub fprot : ℕ) → List Bundle
    → List Range × Status
page_protect env prot x r3 r0 off sub fprot bs =
    if not (is_session_valid x)
    then ([], invalid_parameter)
    else if not (fprot / 8 == 0)
    then ([], invalid_parameter)
    else if not (off % page_size == 0)
    then ([], invalid_parameter)
    else if not (sub % page_size == 0)
    then ([], invalid_parameter)
    else if sub == 0
    then ([], invalid_parameter)
    else (elim (find_last (is_protectable env.addresses r3 r0) bs none) [
      | none ↦ ([], invalid_parameter)
      | some m ↦
          let h0 = if r0 == 0 then 0 else m.mem_obj in
          let h3 = if r3 == 0 then 0 else m.map_obj in
          if h0 == 0 && h3 == 0
          then ([], invalid_parameter)
          else if is_in_range off sub (env.size (if h0 == 0 then h3 else h0))
          then protect_objects prot h0 h3 off sub
          else ([], invalid_parameter)
    ])
