-- ===== src/MemRef/Tests.antt =====
-- Runs of supdrvMemAdd and supdrvMemRelease, and the theorems about them at concrete chains.
use virtualbox_drv.Common.{
  ◌*◌, ◌≡◌, refl, true, false, List, [], ◌∷◌, arith, replicate, success, no_memory,
}
use virtualbox_drv.MemRef.{
  MemRef, Bundle, Addresses, unused, mem_add, mem_release, add_bundles, add_slot, take_bundles,
  take_slot,
}
use virtualbox_drv.MemRef.Entries.{WellFormed, in_use, occupied}
use virtualbox_drv.MemRef.Release.{MemReleased, mem_release-MemReleased, mem_release-no_room}

-- A memory object with handle 7, mapped at 0x700 in ring 0.
abbrev low : MemRef
low = record { mem_obj = 7; map_obj = 8; type = 3 }

abbrev mapped : Addresses
mapped = record { r0 = λ h. h * 0x100; r3 = λ h. h * 0x1000 }

-- A new session: one empty bundle.
abbrev empty_chain : List Bundle
empty_chain = record { mem = replicate 64 unused; used = 0 } ∷ []

abbrev one_chain : List Bundle
one_chain = record { mem = low ∷ replicate 63 unused; used = 1 } ∷ []

-- The counter of this bundle is at its limit, and one entry is in use.
abbrev worn_chain : List Bundle
worn_chain = record { mem = low ∷ replicate 63 unused; used = 64 } ∷ []

add_first : mem_add false (λ bs. bs) low empty_chain ≡ (one_chain, success)
unfolding mem_add add_bundles add_slot
add_first = refl

release_first :
    mem_release mapped 0x700 3 one_chain
    ≡ (record { mem = replicate 64 unused; used = 1 } ∷ [], (8, false) ∷ (7, true) ∷ [], success)
unfolding mem_release take_bundles take_slot
release_first = refl

empty-WellFormed : WellFormed empty_chain
unfolding occupied in_use
empty-WellFormed = omega arith

one-WellFormed : WellFormed one_chain
unfolding occupied in_use
one-WellFormed = omega arith

worn-WellFormed : WellFormed worn_chain
unfolding occupied in_use
worn-WellFormed = omega arith

mem_release-MemReleased_example :
    MemReleased mapped 0x700 3 one_chain (mem_release mapped 0x700 3 one_chain)
mem_release-MemReleased_example = mem_release-MemReleased mapped 0x700 3 one_chain one-WellFormed

-- The only reference is released, and there is no room for it all the same.
mem_release-no_room_example :
    mem_add false (λ bs. bs) low (mem_release mapped 0x700 3 worn_chain).0
    ≡ ((mem_release mapped 0x700 3 worn_chain).0, no_memory)
mem_release-no_room_example =
    mem_release-no_room mapped 0x700 3 (λ bs. bs) low worn_chain worn-WellFormed (refl, tt)
