-- ===== src/HandleTable/Racing.antt =====
-- RTHandleTableAllocWithCtx of common/misc/handletablectx.c when other threads use the handle table
-- each time the lock is left.
use virtualbox_drv.Common.{
  ℕ, zero, suc, ◌+◌, ◌/◌, ◌<◌, ◌≤◌, ◌≡◌, refl, true, false, not, ◌&&◌, Option, none, some, List, [],
  ◌∷◌, ◌++◌, arith, ltb, leb, ◌==◌, if◌then◌else◌, Bool-cases, inl, inr, subst, guard_intro, Status,
  length-append,
}
use virtualbox_drv.HandleTable.{
  Entry, HandleTable, is_free_word, nil_index, take_free, link_table, new_cells, level1_request,
  insert_table, ExpandEnv, AllocRound, again, done, alloc_round, alloc_loop, alloc_with_ctx,
  handle_table_magic,
}
use virtualbox_drv.HandleTable.FreeList.{is_free_word-free_word, Chain-tail}
use virtualbox_drv.HandleTable.WellFormed.{Wf, IsWf, take_free-Wf, tail_nil, Distinct-member}
use virtualbox_drv.HandleTable.Expansion.{
  link_table-Wf, link_table-empty, link_table-behind, fresh_indices,
}
use virtualbox_drv.HandleTable.Handles.{tail_free}
use virtualbox_drv.HandleTable.Growth.{larger-Wf}
use virtualbox_drv.HandleTable.Destroy.{used_from}
use virtualbox_drv.HandleTable.Counted.{
  IsCounted, flag, used_from-same, used_from-free, used_from-append,
}
use virtualbox_drv.HandleTable.Counting.{take_free-IsCounted}

-- A well-formed table whose counter of handles is right.
abbrev pub IsGood : HandleTable → Type 0
IsGood t = IsWf t × IsCounted t

-- What other threads do keeps the table good.
pub record Races (env : ExpandEnv) : Type 0 where
  pub on_alloc : (t : HandleTable) → IsGood t → IsGood (env.race_alloc t)
  pub on_level1 : (t : HandleTable) → IsGood t → IsGood (env.race_level1 t)
  pub on_lost : (t : HandleTable) → IsGood t → IsGood (env.race_lost t)

new_flag :
    (cur : ℕ) (f : ℕ → Entry) (j : ℕ) → cur ≤ j → j < cur + 2048 → flag (new_cells cur f) j ≡ true
new_flag cur f j h k = ground (arith, is_free_word-free_word (j + 1))

link_table_flags :
    (t : HandleTable) (fs : List ℕ)
    → Wf t fs
    → ((j : ℕ) → j < t.cur → flag (link_table t).cells j ≡ flag t.cells j)
      × ((j : ℕ) → t.cur ≤ j → j < t.cur + 2048 → flag (link_table t).cells j ≡ true)
      × ((link_table t).cur ≡ t.cur + 2048)
      × ((link_table t).allocated ≡ t.allocated)
link_table_flags t [] v =
    let empty : (t.free_tail == nil_index) ≡ true = ground (arith, v.chain) in
    rw (link_table-empty t empty)
      (λ j h. ground arith, λ j h k. new_flag t.cur t.cells j h k, refl, refl)
link_table_flags t (i ∷ is) v =
    let free = tail_free t i is v in
    let below =
      Distinct-member t.cur t.free_tail (i ∷ is) v.distinct
        (Chain-tail t.cells t.free_head i is t.free_tail v.chain) in
    rw (link_table-behind t (tail_nil t i is v)) (
      λ j h. elim (Bool-cases (t.free_tail == j)) [
        | inl same ↦
            let hit : flag t.cells j ≡ true =
              subst (λ x. flag t.cells x ≡ true) (ground (arith, same)) free in
            rw (same, hit) (is_free_word-free_word t.cur)
        | inr apart ↦ rw apart (ground (arith, h))
      ],
      λ j h k.
          let apart : (t.free_tail == j) ≡ false = ground (arith, below, h) in
          rw apart (new_flag t.cur t.cells j h k),
      refl,
      refl,
    )

pub link_table-IsCounted :
    (t : HandleTable) (fs : List ℕ) → Wf t fs → IsCounted t → IsCounted (link_table t)
link_table-IsCounted t fs v counted =
    let g = (link_table t).cells in
    let (old, new, cur, counter) = link_table_flags t fs v in
    let same = used_from-same t.cells g 0 t.cur (λ j a b. old j (omega (arith, b))) in
    let none_new = used_from-free g t.cur 2048 new in
    let start : 0 + t.cur ≡ t.cur = omega arith in
    let split : used_from g 0 (t.cur + 2048) ≡ used_from g 0 t.cur ++ used_from g t.cur 2048 =
      subst (λ k. used_from g 0 (t.cur + 2048) ≡ used_from g 0 t.cur ++ used_from g k 2048) start
        (used_from-append g 0 t.cur 2048 (t.cur + 2048) refl) in
    let total = length-append (used_from t.cells 0 t.cur) [] in
    rw (counter, cur, split, same, none_new) (omega (arith, total, counted))

link_table-IsGood :
    (t : HandleTable) → IsGood t → t.cur < t.max → t.cur / 2048 < t.c_level1 → IsGood (link_table t)
link_table-IsGood t ((fs, v), counted) room place = (
  (fs ++ fresh_indices t.cur, link_table-Wf t fs v room place),
  link_table-IsCounted t fs v counted,
)

grown-IsGood :
    (t : HandleTable) (c : ℕ)
    → IsGood t
    → IsGood (if ltb t.c_level1 c then record t { c_level1 = c } else t)
grown-IsGood t c ((fs, v), counted) = elim (Bool-cases (ltb t.c_level1 c)) [
  | inl larger ↦ rw larger ((fs, larger-Wf t fs c v (ground (arith, larger))), counted)
  | inr e ↦ rw e ((fs, v), counted)
]

-- Behind the allocations of an expansion the table is looked at anew.
placed-IsGood :
    (env : ExpandEnv) (u : HandleTable)
    → Races env
    → IsGood u
    → IsGood
        (if ltb (u.cur / 2048) u.c_level1 && ltb u.cur u.max then link_table u else env.race_lost u)
placed-IsGood env u races good =
    elim (Bool-cases (ltb (u.cur / 2048) u.c_level1 && ltb u.cur u.max)) [
      | inl won ↦ rw won (link_table-IsGood u good (ground (arith, won)) (ground (arith, won)))
      | inr lost ↦ rw lost (races.on_lost u good)
    ]

insert_table-IsGood :
    (env : ExpandEnv) (c : ℕ) (t : HandleTable)
    → Races env
    → IsGood t
    → IsGood (insert_table env c t)
unfolding insert_table
insert_table-IsGood env c t races good = elim (Bool-cases (c == 0)) [
  | inl none_asked ↦ rw (none_asked, insert_table) (placed-IsGood env t races good)
  | inr asked ↦
      rw (asked, insert_table)
        (placed-IsGood env _ races (races.on_level1 _ (grown-IsGood t c good)))
]

-- The table that a round of the loop leaves.
abbrev RoundIsGood : AllocRound → Type 0
RoundIsGood (again t) = IsGood t
RoundIsGood (done t st h) = IsGood t

taken-IsGood :
    (t : HandleTable) (obj ctx : ℕ)
    → IsGood t
    → is_free_word obj ≡ false
    → (t.free_head == nil_index) ≡ false
    → IsGood (take_free t obj ctx)
taken-IsGood t obj ctx (([], v), counted) used set = absurd (ground (arith, v.chain, set))
taken-IsGood t obj ctx ((i ∷ fs, v), counted) used set =
    ((fs, take_free-Wf t i fs obj ctx v), take_free-IsCounted t i fs obj ctx v counted used)

alloc_round-IsGood :
    (env : ExpandEnv) (t : HandleTable) (obj ctx : ℕ)
    → Races env
    → IsGood t
    → is_free_word obj ≡ false
    → RoundIsGood (alloc_round env t obj ctx)
unfolding alloc_round
alloc_round-IsGood env t obj ctx races good used = elim (Bool-cases (t.free_head == nil_index)) [
  | inr set ↦ rw (set, alloc_round) (taken-IsGood t obj ctx good used set)
  | inl empty ↦
      rw (empty, alloc_round)
        (guard_intro RoundIsGood (leb t.max t.cur) _ _ good (λ room.
          guard_intro RoundIsGood (not (level1_request t == 0) && not env.level1_memory) _ _ good
            (λ a.
              guard_intro RoundIsGood (not env.table_memory) _ _ good
                (λ b. insert_table-IsGood env (level1_request t) _ races (races.on_alloc t good)))))
]

-- Whatever the run returns has the property.
abbrev pub IfReturns {ℓ} : {A : Type ℓ} → (A → Type 0) → Option A → Type 0
IfReturns P none = Unit {0}
IfReturns P (some a) = P a

alloc_loop-IsGood :
    (n : ℕ) (envs : ℕ → ExpandEnv) (t : HandleTable) (obj ctx : ℕ)
    → ((k : ℕ) → Races (envs k))
    → IsGood t
    → is_free_word obj ≡ false
    → IfReturns (λ r. IsGood r.0) (alloc_loop n envs t obj ctx)
unfolding alloc_loop
alloc_loop-IsGood zero envs t obj ctx races good used = tt
alloc_loop-IsGood (suc n) envs t obj ctx races good used =
    go (alloc_round (envs 0) t obj ctx) (alloc_round-IsGood (envs 0) t obj ctx (races 0) good used)
      (λ u g. alloc_loop-IsGood n (λ k. envs (suc k)) u obj ctx (λ k. races (suc k)) g used)
  where
    go :
        (r : AllocRound)
        → RoundIsGood r
        → ((u : HandleTable)
            → IsGood u
            → IfReturns (λ r. IsGood r.0) (alloc_loop n (λ k. envs (suc k)) u obj ctx))
        → IfReturns
            (λ r. IsGood r.0)
            (elim r [
              | again u ↦ alloc_loop n (λ k. envs (suc k)) u obj ctx
              | done u st h ↦ some (u, st, h)
            ])
    go (again u) g k = k u g
    go (done u st h) g k = g

-- However often other threads expand the table or take its handles while the lock is left, the loop
-- of RTHandleTableAllocWithCtx leaves a good table when it returns.
pub alloc_with_ctx-IsGood :
    (n : ℕ) (envs : ℕ → ExpandEnv) (t : HandleTable) (obj ctx : ℕ)
    → ((k : ℕ) → Races (envs k))
    → IsGood t
    → IfReturns (λ r. IsGood r.0) (alloc_with_ctx n envs t obj ctx)
unfolding alloc_with_ctx
alloc_with_ctx-IsGood n envs t obj ctx races good =
    let P = IfReturns (λ (r : HandleTable × Status × ℕ). IsGood r.0) in
    guard_intro P (not (t.magic == handle_table_magic)) _ _ good (λ a.
      guard_intro P (not t.has_context) _ _ good (λ b.
        guard_intro P (is_free_word obj) _ _ good (alloc_loop-IsGood n envs t obj ctx races good)))
