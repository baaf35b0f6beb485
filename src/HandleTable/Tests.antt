-- ===== src/HandleTable/Tests.antt =====
-- Runs of the handle table functions of common/misc/handletablectx.c, and the theorems about them at
-- concrete tables.
use mathlib.Core.Option
use mathlib.Core.List.{map}
use virtualbox_drv.Common.{ℕ, ◌≡◌, refl, true, none, some, [], arith, Returns, success}
use virtualbox_drv.HandleTable.{
  HandleTable, ExpandEnv, new_table, take_free, link_table, free_with_ctx, alloc_with_ctx,
  alloc_loop, alloc_round, insert_table, lookup_with_ctx, find_object, lookup_index, link_free,
}
use virtualbox_drv.HandleTable.WellFormed.{IsWf, take_free-Wf}
use virtualbox_drv.HandleTable.Expansion.{link_table-Wf, range}
use virtualbox_drv.HandleTable.Creation.{new_table-Wf}
use virtualbox_drv.HandleTable.Handles.{Freed, refused, freed, free_with_ctx-Freed}
use virtualbox_drv.HandleTable.Destroy.{used_from, delete_of, destroy_table}
use virtualbox_drv.HandleTable.Counted.{IsCounted, destroy_table-used_from}
use virtualbox_drv.HandleTable.Racing.{
  IsGood, IfReturns, Races, alloc_with_ctx-IsGood, link_table-IsCounted,
}
use virtualbox_drv.HandleTable.Counting.{free_with_ctx-IsCounted, take_free-IsCounted}
use virtualbox_drv.HandleTable.Taking.{Alloced}
use virtualbox_drv.HandleTable.Allocation.{alloc_with_ctx-Alloced}

-- The table of RTHandleTableCreate, with contexts.
abbrev empty_table : HandleTable
empty_table = new_table 3 1 65534

abbrev quiet_envs : ℕ → ExpandEnv
quiet_envs n = record {
  level1_memory = true;
  table_memory = true;
  race_alloc = λ t. t;
  race_level1 = λ t. t;
  race_lost = λ t. t;
}

-- The table with the object 8, of the context 5, behind the handle 1.
abbrev one_handle : HandleTable
one_handle = take_free (link_table empty_table) 8 5

one_handle-IsWf : IsWf one_handle
one_handle-IsWf = (
  range 1 2047,
  take_free-Wf (link_table empty_table) 0 (range 1 2047) 8 5 (
      link_table-Wf empty_table [] (new_table-Wf 3 1 65534 (omega arith)) (omega arith)
        (omega arith)),
)

free_with_ctx-Freed_example : Freed none one_handle 1 5 (free_with_ctx none one_handle 1 5)
free_with_ctx-Freed_example = free_with_ctx-Freed none one_handle 1 5 one_handle-IsWf

alloc_with_ctx-Alloced_example :
    Returns (Alloced one_handle 16 5) (alloc_with_ctx 2 quiet_envs one_handle 16 5)
alloc_with_ctx-Alloced_example =
    alloc_with_ctx-Alloced 0 quiet_envs one_handle 16 5 (λ n t. (refl, refl, refl)) one_handle-IsWf

-- The first handle of an empty table is the base.
first_handle : Option.map (λ r. r.2) (alloc_with_ctx 2 quiet_envs empty_table 8 5) ≡ some 1
unfolding alloc_with_ctx alloc_loop alloc_round insert_table link_table
first_handle = refl

-- The object is found with its context only, and freed once.
found : lookup_with_ctx none one_handle 1 5 ≡ 8
unfolding lookup_with_ctx find_object lookup_index take_free link_table
found = refl

foreign : lookup_with_ctx none one_handle 1 6 ≡ 0
unfolding lookup_with_ctx find_object lookup_index take_free link_table
foreign = refl

freed_twice : (free_with_ctx none (free_with_ctx none one_handle 1 5).0 1 5).1 ≡ 0
unfolding free_with_ctx lookup_with_ctx find_object lookup_index take_free link_table link_free
freed_twice = refl

empty_table-IsCounted : IsCounted empty_table
unfolding used_from
empty_table-IsCounted = refl

empty_table-IsGood : IsGood empty_table
empty_table-IsGood = (([], new_table-Wf 3 1 65534 (omega arith)), empty_table-IsCounted)

one_handle-IsCounted : IsCounted one_handle
one_handle-IsCounted =
    let v = new_table-Wf 3 1 65534 (omega arith) in
    take_free-IsCounted (link_table empty_table) 0 (range 1 2047) 8 5
      (link_table-Wf empty_table [] v (omega arith) (omega arith))
      (link_table-IsCounted empty_table [] v empty_table-IsCounted) refl

destroy_table-used_from_example :
    destroy_table one_handle
    ≡ (map (delete_of one_handle) (used_from one_handle.cells 0 2048), success)
unfolding link_table take_free
destroy_table-used_from_example =
    destroy_table-used_from one_handle one_handle-IsWf.0 one_handle-IsWf.1 one_handle-IsCounted refl

-- Another thread frees the handle 1 while the lock is left.
abbrev racing_envs : ℕ → ExpandEnv
racing_envs n = record {
  level1_memory = true;
  table_memory = true;
  race_alloc = λ t. (free_with_ctx none t 1 5).0;
  race_level1 = λ t. t;
  race_lost = λ t. t;
}

free_with_ctx-IsWf : (t : HandleTable) → IsWf t → IsWf (free_with_ctx none t 1 5).0
free_with_ctx-IsWf t v = go (free_with_ctx none t 1 5) (free_with_ctx-Freed none t 1 5 v)
  where
    go : (r : HandleTable × ℕ) → Freed none t 1 5 r → IsWf r.0
    go _ (refused e) = v
    go _ (freed set leads same gone kept w) = w

free_with_ctx-Races : (n : ℕ) → Races (racing_envs n)
free_with_ctx-Races n = record {
  on_alloc =
      λ t good. (free_with_ctx-IsWf t good.0, free_with_ctx-IsCounted none t 1 5 good.0 good.1);
  on_level1 = λ t good. good;
  on_lost = λ t good. good;
}

alloc_with_ctx-IsGood_example :
    IfReturns (λ r. IsGood r.0) (alloc_with_ctx 2 racing_envs empty_table 16 5)
alloc_with_ctx-IsGood_example =
    alloc_with_ctx-IsGood 2 racing_envs empty_table 16 5 free_with_ctx-Races empty_table-IsGood
