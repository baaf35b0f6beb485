-- ===== src/HandleTable/Allocation.antt =====
-- The allocation of a handle by RTHandleTableAllocWithCtx of common/misc/handletablectx.c.
use virtualbox_drv.Common.{
  ℕ, suc, ◌+◌, ◌%◌, ◌^◌, ◌<◌, ◌≡◌, refl, true, false, not, ◌&&◌, List, [], ◌∷◌, arith, leb, ◌==◌,
  Bool-cases, inl, inr, sym, Returns, guard_intro, success,
}
use virtualbox_drv.HandleTable.{
  HandleTable, is_free_word, nil_index, take_free, link_table, ExpandEnv, level1_request,
  alloc_round, alloc_loop, alloc_with_ctx, handle_table_magic, again, done,
}
use virtualbox_drv.HandleTable.WellFormed.{Wf, IsWf, Used, chain_head}
use virtualbox_drv.HandleTable.Expansion.{range}
use virtualbox_drv.HandleTable.Taking.{Alloced, failed, taken_Alloced}
use virtualbox_drv.HandleTable.Growth.{grown, insert_table-grown, expanded}

-- No other thread touches the table while the lock is left.
abbrev pub Quiet : (ℕ → ExpandEnv) → Type 0
Quiet envs =
    (n : ℕ) (t : HandleTable)
    → ((envs n).race_alloc t ≡ t) × ((envs n).race_level1 t ≡ t) × ((envs n).race_lost t ≡ t)

head_round :
    (env : ExpandEnv) (t : HandleTable) (obj ctx i : ℕ) (fs : List ℕ)
    → Wf t (i ∷ fs)
    → alloc_round env t obj ctx
      ≡ done (take_free t obj ctx) success ((t.free_head + t.base) % 2 ^ 32)
unfolding alloc_round
head_round env t obj ctx i fs v =
    let head = chain_head t.cells t.free_head i fs t.free_tail v.chain in
    let set : (t.free_head == nil_index) ≡ false =
      ground (arith, head, v.distinct.0, v.cur_max, v.max_limit) in
    rw (set, alloc_round) refl

taken_loop :
    (n : ℕ) (envs : ℕ → ExpandEnv) (t u : HandleTable) (obj ctx i : ℕ) (fs : List ℕ)
    → Wf u (i ∷ fs)
    → t.base ≡ u.base
    → ((k : ℕ) → Used t k → (k < u.cur) × (u.cells k ≡ t.cells k))
    → is_free_word obj ≡ false
    → Returns (Alloced t obj ctx) (alloc_loop (suc n) envs u obj ctx)
unfolding alloc_loop
taken_loop n envs t u obj ctx i fs v b keeps used =
    rw (head_round (envs 0) u obj ctx i fs v, alloc_loop)
      (taken_Alloced t u obj ctx i fs v b keeps used)

expand_round :
    (env : ExpandEnv) (t : HandleTable) (obj ctx : ℕ)
    → ((u : HandleTable) → (env.race_alloc u ≡ u) × (env.race_level1 u ≡ u) × (env.race_lost u ≡ u))
    → Wf t []
    → leb t.max t.cur ≡ false
    → (not (level1_request t == 0) && not env.level1_memory) ≡ false
    → env.table_memory ≡ true
    → alloc_round env t obj ctx ≡ again (link_table (grown t))
unfolding alloc_round
expand_round env t obj ctx quiet v room big memory =
    let empty : (t.free_head == nil_index) ≡ true = ground (arith, v.chain) in
    rw
      (
        empty,
        room,
        big,
        alloc_round,
        (quiet t).0,
        insert_table-grown env t [] (λ u. (quiet u).1) v (ground (arith, room)),
      )
      (rw memory refl)

-- With an empty free list the table is full, or the memory is, or an expansion is made.
expanding_loop :
    (n : ℕ) (envs : ℕ → ExpandEnv) (t : HandleTable) (obj ctx : ℕ)
    → Quiet envs
    → Wf t []
    → is_free_word obj ≡ false
    → Returns (Alloced t obj ctx) (alloc_loop (suc (suc n)) envs t obj ctx)
unfolding alloc_loop alloc_round
expanding_loop n envs t obj ctx quiet v used =
    let empty : (t.free_head == nil_index) ≡ true = ground (arith, v.chain) in
    elim (Bool-cases (leb t.max t.cur)) [
      | inl full ↦ rw (empty, full, alloc_loop, alloc_round) (failed refl)
      | inr room ↦ elim (Bool-cases (not (level1_request t == 0) && not (envs 0).level1_memory)) [
        | inl small ↦ rw (empty, room, small, alloc_loop, alloc_round) (failed refl)
        | inr big ↦ elim (Bool-cases (envs 0).table_memory) [
          | inr failing ↦ rw (empty, room, big, failing, alloc_loop, alloc_round) (failed refl)
          | inl memory ↦
              let below : t.cur < t.max = ground (arith, room) in
              let (w, b, keeps) = expanded t v below in
              rw (expand_round (envs 0) t obj ctx (quiet 0) v room big memory, alloc_loop)
                (taken_loop n (λ k. envs (suc k)) t (link_table (grown t)) obj ctx (grown t).cur
                  (range ((grown t).cur + 1) 2047) w (sym b) keeps used)
        ]
      ]
    ]

from_list :
    (n : ℕ) (envs : ℕ → ExpandEnv) (t : HandleTable) (obj ctx : ℕ) (fs : List ℕ)
    → Quiet envs
    → Wf t fs
    → is_free_word obj ≡ false
    → Returns (Alloced t obj ctx) (alloc_loop (suc (suc n)) envs t obj ctx)
from_list n envs t obj ctx [] quiet v used = expanding_loop n envs t obj ctx quiet v used
from_list n envs t obj ctx (i ∷ fs) quiet v used =
    taken_loop (suc n) envs t t obj ctx i fs v refl (λ k w. (w.0, refl)) used

-- RTHandleTableAllocWithCtx on a well-formed table returns within two rounds if no other thread
-- touches the table meanwhile. It fails with the table unchanged, or gives the handle of an entry that
-- held no object: the object is found behind it, and the entries of all other objects stay.
pub alloc_with_ctx-Alloced :
    (n : ℕ) (envs : ℕ → ExpandEnv) (t : HandleTable) (obj ctx : ℕ)
    → Quiet envs
    → IsWf t
    → Returns (Alloced t obj ctx) (alloc_with_ctx (suc (suc n)) envs t obj ctx)
unfolding alloc_with_ctx
alloc_with_ctx-Alloced n envs t obj ctx quiet (fs, v) =
    let P = Returns (Alloced t obj ctx) in
    guard_intro P (not (t.magic == handle_table_magic)) _ _ (failed refl) (λ alive.
      guard_intro P (not t.has_context) _ _ (failed refl) (λ context.
        guard_intro P (is_free_word obj) _ _ (failed refl) (from_list n envs t obj ctx fs quiet v)))
