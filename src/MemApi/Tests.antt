-- ===== src/MemApi/Tests.antt =====
-- Runs of the memory interface of vboxdrv/SUPDrv.c, and the theorems about it at concrete requests.
use virtualbox_drv.Common.{
  ℕ, ◌*◌, ◌+◌, ◌≡◌, refl, true, false, none, some, List, [], ◌∷◌, arith, replicate, success,
  no_memory, Returns,
}
use virtualbox_drv.MemApi.{
  MemEnv, made, freed, Request, lock, mem, page, free, run, run_session, run_all, mem_alloc,
  alloc_object, record_object, page_alloc, lock_mem, lock_pages, get_pages, free_memory, type_mem,
  type_page,
}
use virtualbox_drv.MemApi.Leaks.{made_count, freed_count, run_session-balanced}
use virtualbox_drv.MemApi.Outcomes.{Ran, run-Ran}
use virtualbox_drv.MemApi.Search.{
  Range, KernelMap, page_map_kernel, page_protect, find_last, find_slot,
}
use virtualbox_drv.MemApi.Search.Protection.{Protected, page_protect-Protected}
use virtualbox_drv.MemApi.Search.Ranges.{Mapped, page_map_kernel-Mapped}
use virtualbox_drv.MemRef.{
  Bundle, unused, mem_add, add_bundles, add_slot, mem_release, take_bundles, take_slot,
  cleanup_memory, cleanup_entries,
}
use virtualbox_drv.MemRef.Entries.{entries, in_use, occupied, WellFormed}
use virtualbox_drv.Obj.{Session, bird_inv}

abbrev owner : Session
owner = record { id = 1; cookie = bird_inv; uid = 10; gid = 0; process = 0; usage = [] }

-- A new session: one empty bundle.
abbrev empty_chain : List Bundle
empty_chain = record { mem = replicate 64 unused; used = 0 } ∷ []

empty_chain-WellFormed : WellFormed empty_chain
unfolding occupied in_use
empty_chain-WellFormed = (omega arith, tt)

empty_chain-entries : entries empty_chain ≡ []
unfolding entries in_use
empty_chain-entries = refl

-- Each object at 0x1000 times its handle in ring 0, and at 0x10000 times in ring 3; 2 pages large.
abbrev env : ℕ → ℕ → MemEnv
env h k = record {
  created = success;
  mem = h;
  mapped = success;
  map_obj = k;
  addresses = record { r0 = λ p. p * 0x1000; r3 = λ p. p * 0x10000 };
  phys = λ p i. p * 0x1000000 + i * 0x1000;
  size = λ p. 8192;
  has_memory = true;
  race = λ bs. bs;
}

run-Ran_example :
    Ran
      (env 7 8)
      (page 2 0 true true true)
      empty_chain
      (run (env 7 8) owner (page 2 0 true true true) empty_chain)
run-Ran_example =
    run-Ran (env 7 8) owner empty_chain empty_chain-WellFormed
      (record { object = omega arith; mapping = omega arith; raced = empty_chain-WellFormed })
      (page 2 0 true true true)

-- An allocation that is freed, one that cannot be mapped, and one that is left to the cleanup.
abbrev requests : List (MemEnv × Request)
requests =
    (env 7 8, mem 8192 true true)
    ∷ (env 7 8, free type_mem 0x80000)
    ∷ (record (env 9 10) { mapped = no_memory }, page 2 0 true true true)
    ∷ (env 11 12, lock 0x20000 2 true)
    ∷ []

requests_calls :
    run_session owner requests empty_chain
    ≡ made 7
      ∷ made 8
      ∷ freed 8 false
      ∷ freed 7 true
      ∷ made 9
      ∷ freed 9 false
      ∷ made 11
      ∷ freed 11 true
      ∷ []
unfolding run_session run_all run mem_alloc alloc_object record_object page_alloc lock_mem
    lock_pages get_pages free_memory mem_add add_bundles add_slot mem_release take_bundles take_slot
    cleanup_memory cleanup_entries
requests_calls = refl

run_session-balanced_example :
    made_count 7 (run_session owner requests empty_chain)
    ≡ freed_count 7 (run_session owner requests empty_chain)
run_session-balanced_example =
    run_session-balanced 7 (omega arith) owner requests empty_chain empty_chain-WellFormed
      empty_chain-entries
      (
        (omega arith, omega arith, λ bs. refl),
        (
          (omega arith, omega arith, λ bs. refl),
          ((omega arith, omega arith, λ bs. refl), ((omega arith, omega arith, λ bs. refl), tt)),
        ),
      )

-- The allocation 7 of two pages, mapped to ring 3 at 0x80000.
abbrev one_chain : List Bundle
one_chain =
    record {
      mem = record { mem_obj = 7; map_obj = 8; type = type_page } ∷ replicate 63 unused;
      used = 1;
    }
    ∷ []

abbrev kernel : Range → KernelMap
kernel r = record { status = success; address = r.object * 0x1000 + r.off }

maps_second_page :
    page_map_kernel (env 7 8) kernel owner 0x80000 4096 4096 0 true one_chain
    ≡ some (some (record { object = 7; off = 4096; sub = 4096 }), success, some 0x8000)
unfolding page_map_kernel find_last find_slot
maps_second_page = refl

-- The pointer for the address may be NULL by the checks, and is written to.
maps_to_null : page_map_kernel (env 7 8) kernel owner 0x80000 4096 4096 0 false one_chain ≡ none
unfolding page_map_kernel find_last find_slot
maps_to_null = refl

page_map_kernel-Mapped_example :
    Returns
      (Mapped (env 7 8) kernel 0x80000 one_chain)
      (page_map_kernel (env 7 8) kernel owner 0x80000 4096 4096 0 true one_chain)
page_map_kernel-Mapped_example =
    page_map_kernel-Mapped (env 7 8) owner 0x80000 one_chain kernel 4096 4096 0

page_protect-Protected_example :
    Protected
      (env 7 8)
      0x80000
      0
      0
      4096
      one_chain
      (page_protect (env 7 8) (λ r. success) owner 0x80000 0 0 4096 1 one_chain)
page_protect-Protected_example =
    page_protect-Protected (env 7 8) owner 0x80000 0 one_chain (λ r. success) 0 4096 1
