-- ===== src/HandleTable/Counting.antt =====
-- The counter of handles of a handle table through allocations and frees, in
-- common/misc/handletablectx.c.
use virtualbox_drv.Common.{
  ℕ, ◌≡◌, ◌≢◌, refl, true, false, Option, List, [], ◌∷◌, arith, ◌==◌, Bool-cases, inl, inr, update,
  subst, sym, Status, dec32, eq_self,
}
use virtualbox_drv.HandleTable.{
  HandleTable, is_free_word, nil_index, take_free, link_free, index_of, free_with_ctx,
  lookup_with_ctx,
}
use virtualbox_drv.HandleTable.FreeList.{Chain-free, is_free_word-free_word}
use virtualbox_drv.HandleTable.WellFormed.{
  Wf, IsWf, Used, chain_head, link_free-empty, link_free-behind, cleared, tail_nil,
}
use virtualbox_drv.HandleTable.Handles.{tail_free, lookup_with_ctx_cases}
use virtualbox_drv.HandleTable.Counted.{IsCounted, flag, used_from-more, length-used_from}

pub take_free-IsCounted :
    (t : HandleTable) (i : ℕ) (fs : List ℕ) (obj ctx : ℕ)
    → Wf t (i ∷ fs)
    → IsCounted t
    → is_free_word obj ≡ false
    → IsCounted (take_free t obj ctx)
unfolding take_free
take_free-IsCounted t i fs obj ctx v counted used =
    let k = t.free_head in
    let g = update t.cells k (record { word = obj; ctx = ctx }) in
    let head = chain_head t.cells k i fs t.free_tail v.chain in
    let free = Chain-free t.cells k k (i ∷ fs) t.free_tail v.chain (ground (arith, head)) in
    let more =
      used_from-more t.cells g k 0 t.cur
        (λ j apart. let e : (k == j) ≡ false = ground (arith, apart) in rw e refl) (omega arith)
        (omega (arith, head, v.distinct.0)) free (rw (eq_self k) used) in
    let bound = length-used_from g 0 t.cur in
    omega (arith, more, bound, counted, v.cur_max, v.max_limit)

link_free_flags :
    (t : HandleTable) (i : ℕ) (fs : List ℕ)
    → Wf t fs
    → (flag (link_free t i).cells i ≡ true)
      × ((j : ℕ) → j ≢ i → flag (link_free t i).cells j ≡ flag t.cells j)
unfolding cleared
link_free_flags t i [] v =
    let empty : (t.free_tail == nil_index) ≡ true = ground (arith, v.chain) in
    rw (link_free-empty t i empty, eq_self i)
      (refl, λ j apart. let e : (i == j) ≡ false = ground (arith, apart) in rw e refl)
link_free_flags t i (k ∷ ks) v =
    let free = tail_free t k ks v in
    rw (link_free-behind t i (tail_nil t k ks v)) (
      elim (Bool-cases (t.free_tail == i)) [
        | inl same ↦ rw same (is_free_word-free_word i)
        | inr apart ↦ rw (apart, eq_self i) refl
      ],
      λ j other.
          let e : (i == j) ≡ false = ground (arith, other) in
          elim (Bool-cases (t.free_tail == j)) [
            | inl same ↦
                let hit : flag t.cells j ≡ true =
                  subst (λ x. flag t.cells x ≡ true) (ground (arith, same)) free in
                rw (same, hit) (is_free_word-free_word i)
            | inr apart ↦ rw (apart, e) refl
          ],
    )

link_free_counter :
    (t : HandleTable) (i : ℕ)
    → ((link_free t i).allocated ≡ dec32 t.allocated) × ((link_free t i).cur ≡ t.cur)
unfolding link_free
link_free_counter t i = elim (Bool-cases (t.free_tail == nil_index)) [
  | inl e ↦ rw (e, link_free) (refl, refl)
  | inr e ↦ rw (e, link_free) (refl, refl)
]

link_free-IsCounted :
    (t : HandleTable) (i : ℕ) (fs : List ℕ)
    → Wf t fs
    → IsCounted t
    → Used t i
    → IsCounted (link_free t i)
link_free-IsCounted t i fs v counted u =
    let (free, same) = link_free_flags t i fs v in
    let (counter, cur) = link_free_counter t i in
    let more =
      used_from-more (link_free t i).cells t.cells i 0 t.cur (λ j apart. sym (same j apart))
        (omega arith) (omega (arith, u.0)) free u.1 in
    let bound = length-used_from t.cells 0 t.cur in
    rw (counter, cur) (omega (arith, more, counted, bound, v.cur_max, v.max_limit))

-- RTHandleTableFreeWithCtx keeps the counter of handles right.
pub free_with_ctx-IsCounted :
    (retain : Option (ℕ → ℕ → Status)) (t : HandleTable) (h ctx : ℕ)
    → IsWf t
    → IsCounted t
    → IsCounted (free_with_ctx retain t h ctx).0
unfolding free_with_ctx
free_with_ctx-IsCounted retain t h ctx (fs, v) counted =
    elim (Bool-cases (lookup_with_ctx retain t h ctx == 0)) [
      | inl null ↦ rw (null, free_with_ctx) counted
      | inr set ↦ elim (lookup_with_ctx_cases retain t h ctx) [
        | inl null ↦ absurd (ground (arith, set, null))
        | inr (leads, found) ↦
            rw (set, free_with_ctx) (link_free-IsCounted t (index_of t h) fs v counted leads.0)
      ]
    ]
