-- ===== src/MemApi.antt =====
-- The memory interface of vboxdrv/SUPDrv.c on the references of MemRef.antt: SUPR0LockMem,
-- SUPR0ContAlloc, SUPR0LowAlloc, SUPR0MemAlloc, SUPR0PageAllocEx and the functions that free.
pub mod Leaks
pub mod Outcomes
pub mod Search
mod Tests
use virtualbox_drv.Common.{
  ℕ, zero, suc, ◌+◌, ◌*◌, ◌/◌, ◌%◌, ◌^◌, ◌-◌, Bool, true, false, not, ◌&&◌, ◌||◌, Option, none,
  some, List, [], ◌∷◌, ◌++◌, map, Status, success, invalid_parameter, invalid_pointer,
  internal_error, page_count_out_of_range, rt_success, ltb, leb, ◌==◌, if◌then◌else◌,
}
use virtualbox_drv.MemRef.{MemRef, Bundle, Addresses, mem_add, mem_release, cleanup_memory}
use virtualbox_drv.Obj.{Session, is_session_valid}

abbrev pub page_size : ℕ
page_size = 4096

-- NIL_RTHCPHYS.
abbrev pub nil_phys : ℕ
nil_phys = 2 ^ 64 - 1

-- SUPDRVMEMREFTYPE.
abbrev pub type_locked : ℕ
type_locked = 1

abbrev pub type_cont : ℕ
type_cont = 2

abbrev pub type_low : ℕ
type_low = 3

abbrev pub type_mem : ℕ
type_mem = 4

abbrev pub type_page : ℕ
type_page = 5

-- The creations and releases of memory objects, in their order: the handle, and `fFreeMappings`.
pub data Call : Type 0 where
  made : ℕ → Call
  freed : ℕ → Bool → Call

-- What the runtime gives a function: the outcome and the handle of the creation and of the mapping
-- to ring 3, the addresses and pages of memory objects, whether there is memory for a bundle, and
-- what other threads do to the chain while the lock is left for it.
pub record MemEnv : Type 0 where
  pub created : Status
  pub mem : ℕ
  pub mapped : Status
  pub map_obj : ℕ
  pub addresses : Addresses
  pub phys : ℕ → ℕ → ℕ
  pub size : ℕ → ℕ
  pub has_memory : Bool
  pub race : List Bundle → List Bundle

-- What a function stores through its pointers.
pub record Out : Type 0 where
  pub r0 : Option ℕ
  pub r3 : Option ℕ
  pub pages : List ℕ

abbrev pub no_out : Out
no_out = record { r0 = none; r3 = none; pages = [] }

pub record Outcome : Type 0 where
  pub bundles : List Bundle
  pub calls : List Call
  pub status : Status
  pub out : Out

abbrev pub fails : List Bundle → List Call → Status → Outcome
fails bs cs st = record { bundles = bs; calls = cs; status = st; out = no_out }

-- RTR0MemObjFree, which ignores NIL_RTR0MEMOBJ.
abbrev pub free_object : ℕ → Bool → List Call
free_object h mappings = if h == 0 then [] else freed h mappings ∷ []

-- The addresses of the first `n` pages of a memory object.
unfoldable pub get_pages : MemEnv → (h n : ℕ) → List ℕ → List ℕ
get_pages env h zero ps = ps
get_pages env h (suc n) ps = get_pages env h n (env.phys h n ∷ ps)

-- The loop of SUPR0LockMem, which ends at a page without an address.
unfoldable pub lock_pages : MemEnv → (h n : ℕ) → List ℕ → Option (List ℕ)
lock_pages env h zero ps = some ps
lock_pages env h (suc n) ps =
    let rest = lock_pages env h n (env.phys h n ∷ ps) in
    if env.phys h n == nil_phys then none else rest

-- The reference is recorded, or what was made so far is freed.
unfoldable pub record_object :
    (type : ℕ) → MemEnv → (mapping : ℕ) → List Call → Out → List Bundle → Outcome
record_object type env mapping cs out bs =
    let r =
      mem_add env.has_memory env.race (record { mem_obj = env.mem; map_obj = mapping; type = type })
        bs in
    if rt_success r.1
    then record { bundles = r.0; calls = cs; status = r.1; out = out }
    else fails r.0 (cs ++ (free_object mapping false ++ free_object env.mem false)) r.1

-- The common part of the allocations: create, map to ring 3, record.
unfoldable pub alloc_object : (type : ℕ) (want_map : Bool) → MemEnv → Out → List Bundle → Outcome
alloc_object type want_map env out bs =
    if not (rt_success env.created)
    then fails bs [] env.created
    else if not want_map
    then record_object type env 0 (made env.mem ∷ []) out bs
    else if not (rt_success env.mapped)
    then fails bs (made env.mem ∷ free_object env.mem false) env.mapped
    else record_object type env env.map_obj (made env.mem ∷ made env.map_obj ∷ []) out bs

-- What is stored if the allocation is recorded: the ring-0 address and the ring-3 address.
abbrev pub both_addresses : MemEnv → List ℕ → Out
both_addresses env ps = record {
  r0 = some (env.addresses.r0 env.mem);
  r3 = some (env.addresses.r3 env.map_obj);
  pages = ps;
}

-- SUPR0LockMem. `pages` tells whether paPages is a valid pointer.
unfoldable pub lock_mem : MemEnv → Session → (r3 c_pages : ℕ) (pages : Bool) → List Bundle → Outcome
lock_mem env x r3 c_pages pages bs =
    if not (is_session_valid x)
    then fails bs [] invalid_parameter
    else if not pages
    then fails bs [] invalid_parameter
    else if not ((r3 + (page_size - 1)) % 2 ^ 64 / page_size * page_size == r3) || r3 == 0
    then fails bs [] invalid_parameter
    else if not (rt_success env.created)
    then fails bs [] env.created
    else (elim (lock_pages env env.mem c_pages []) [
      | none ↦ fails bs (made env.mem ∷ free_object env.mem false) internal_error
      | some ps ↦
          record_object type_locked env 0 (made env.mem ∷ [])
            (record { r0 = none; r3 = none; pages = ps }) bs
    ])

-- SUPR0ContAlloc. The flags tell which of the pointers are not NULL.
unfoldable pub cont_alloc :
    MemEnv → Session → (c_pages : ℕ) (to_r0 to_r3 to_phys : Bool) → List Bundle → Outcome
cont_alloc env x c_pages to_r0 to_r3 to_phys bs =
    if not (is_session_valid x)
    then fails bs [] invalid_parameter
    else if not to_r3 || (not to_r0 || not to_phys)
    then fails bs [] invalid_parameter
    else if ltb c_pages 1 || leb 256 c_pages
    then fails bs [] page_count_out_of_range
    else alloc_object type_cont true env (both_addresses env (env.phys env.mem 0 ∷ [])) bs

-- SUPR0LowAlloc.
unfoldable pub low_alloc :
    MemEnv → Session → (c_pages : ℕ) (to_r0 to_r3 to_pages : Bool) → List Bundle → Outcome
low_alloc env x c_pages to_r0 to_r3 to_pages bs =
    if not (is_session_valid x)
    then fails bs [] invalid_parameter
    else if not to_r3 || (not to_r0 || not to_pages)
    then fails bs [] invalid_parameter
    else if ltb c_pages 1 || leb 256 c_pages
    then fails bs [] page_count_out_of_range
    else alloc_object type_low true env (both_addresses env (get_pages env env.mem c_pages [])) bs

-- SUPR0MemAlloc.
unfoldable pub mem_alloc : MemEnv → Session → (cb : ℕ) (to_r0 to_r3 : Bool) → List Bundle → Outcome
mem_alloc env x cb to_r0 to_r3 bs =
    if not (is_session_valid x)
    then fails bs [] invalid_parameter
    else if not to_r0
    then fails bs [] invalid_pointer
    else if not to_r3
    then fails bs [] invalid_pointer
    else if ltb cb 1 || leb (4 * 2 ^ 20) cb
    then fails bs [] invalid_parameter
    else alloc_object type_mem true env (both_addresses env []) bs

-- SUPR0PageAllocEx. The pages are those of the mapping, which is NIL_RTR0MEMOBJ if none is wanted.
unfoldable pub page_alloc :
    MemEnv → Session → (c_pages flags : ℕ) (to_r0 to_r3 to_pages : Bool) → List Bundle → Outcome
page_alloc env x c_pages flags to_r0 to_r3 to_pages bs =
    if not (is_session_valid x)
    then fails bs [] invalid_parameter
    else if not (to_r3 || to_r0)
    then fails bs [] invalid_parameter
    else if not (flags == 0)
    then fails bs [] invalid_parameter
    else if ltb c_pages 1 || ltb (256 * 2 ^ 20 / page_size) c_pages
    then fails bs [] page_count_out_of_range
    else alloc_object type_page to_r3 env
        (record {
          r0 = if to_r0 then some (env.addresses.r0 env.mem) else none;
          r3 = if to_r3 then some (env.addresses.r3 env.map_obj) else none;
          pages =
              if to_pages then get_pages env (if to_r3 then env.map_obj else 0) c_pages [] else [];
        })
        bs

-- SUPR0UnlockMem, SUPR0ContFree, SUPR0LowFree, SUPR0MemFree and SUPR0PageFree, by their types.
unfoldable pub free_memory : MemEnv → Session → (type ptr : ℕ) → List Bundle → Outcome
free_memory env x type ptr bs =
    if not (is_session_valid x)
    then fails bs [] invalid_parameter
    else (let r = mem_release env.addresses ptr type bs in
        fails r.0 (map (λ f. freed f.0 f.1) r.1) r.2)

-- The requests of a client that create or free memory.
pub data Request : Type 0 where
  lock : (r3 c_pages : ℕ) → Bool → Request
  cont : ℕ → Bool → Bool → Bool → Request
  low : ℕ → Bool → Bool → Bool → Request
  mem : ℕ → Bool → Bool → Request
  page : (c_pages flags : ℕ) → Bool → Bool → Bool → Request
  free : (type ptr : ℕ) → Request

unfoldable pub run : MemEnv → Session → Request → List Bundle → Outcome
run env x (lock r3 n p) bs = lock_mem env x r3 n p bs
run env x (cont n a b c) bs = cont_alloc env x n a b c bs
run env x (low n a b c) bs = low_alloc env x n a b c bs
run env x (mem n a b) bs = mem_alloc env x n a b bs
run env x (page n f a b c) bs = page_alloc env x n f a b c bs
run env x (free type ptr) bs = free_memory env x type ptr bs

-- A row of requests, and the calls that they make.
unfoldable pub run_all : Session → List (MemEnv × Request) → List Bundle → List Bundle × List Call
run_all x [] bs = (bs, [])
run_all x (q ∷ qs) bs =
    let o = run q.0 x q.1 bs in let rest = run_all x qs o.bundles in (rest.0, o.calls ++ rest.1)

-- The life of a session's memory: requests, and the cleanup of the session.
unfoldable pub run_session : Session → List (MemEnv × Request) → List Bundle → List Call
run_session x qs bs =
    let r = run_all x qs bs in r.1 ++ map (λ f. freed f.0 f.1) (cleanup_memory r.0)
