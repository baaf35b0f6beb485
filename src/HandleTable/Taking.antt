-- ===== src/HandleTable/Taking.antt =====
-- Taking the head of a free list for a handle, in common/misc/handletablectx.c.
use virtualbox_drv.Common.{
  ℕ, ◌+◌, ◌-◌, ◌%◌, ◌^◌, ◌<◌, ◌≡◌, ◌≢◌, refl, true, false, none, List, ◌∷◌, arith, ltb, ◌==◌, subst,
  eq_self, Status, rt_success, ap, ◌∙◌, success,
}
use virtualbox_drv.HandleTable.{
  HandleTable, is_free_word, index_of, lookup_index, find_object, take_free,
}
use virtualbox_drv.HandleTable.FreeList.{Chain-free}
use virtualbox_drv.HandleTable.WellFormed.{Wf, IsWf, Used, take_free-Wf, chain_head}
use virtualbox_drv.HandleTable.Handles.{Keeps}

-- What an allocation on the table `t` does: it fails and leaves the table as it was; or it gives the
-- handle of an entry that held no object, behind which the object is found from now on, and the
-- entries of all other objects stay.
pub data Alloced (t : HandleTable) (obj ctx : ℕ) : HandleTable × Status × ℕ → Type 0 where
  failed : {st : Status} {h : ℕ} → rt_success st ≡ false → Alloced t obj ctx (t, st, h)
  given :
      {u : HandleTable} {h : ℕ}
      → (Used t (index_of t h) → ⊥)
      → find_object none u h ctx ≡ obj
      → Keeps t u (index_of t h)
      → IsWf u
      → Alloced t obj ctx (u, success, h)

index_of-handle :
    (t : HandleTable) (i : ℕ)
    → i < 2 ^ 32
    → t.base < 2 ^ 32
    → index_of t ((i + t.base) % 2 ^ 32) ≡ i
index_of-handle t i h k = omega arith

find_object-taken :
    (t : HandleTable) (obj ctx h : ℕ)
    → index_of t h ≡ t.free_head
    → t.free_head < t.cur
    → is_free_word obj ≡ false
    → find_object none (take_free t obj ctx) h ctx ≡ obj
unfolding find_object lookup_index take_free
find_object-taken t obj ctx h e below used =
    let b : ltb t.free_head t.cur ≡ true = ground (arith, below) in
    rw (e, b, eq_self t.free_head, eq_self ctx, used, find_object, lookup_index, take_free) refl

take_free-cells :
    (t : HandleTable) (obj ctx k : ℕ) → k ≢ t.free_head → (take_free t obj ctx).cells k ≡ t.cells k
unfolding take_free
take_free-cells t obj ctx k h = let e : (t.free_head == k) ≡ false = ground (arith, h) in rw e refl

-- The head of a free list is taken, after an expansion that kept the used entries, if any.
pub taken_Alloced :
    (t u : HandleTable) (obj ctx i : ℕ) (fs : List ℕ)
    → Wf u (i ∷ fs)
    → t.base ≡ u.base
    → ((k : ℕ) → Used t k → (k < u.cur) × (u.cells k ≡ t.cells k))
    → is_free_word obj ≡ false
    → Alloced t obj ctx (take_free u obj ctx, success, (u.free_head + u.base) % 2 ^ 32)
unfolding take_free
taken_Alloced t u obj ctx i fs v b keeps used =
    let head = chain_head u.cells u.free_head i fs u.free_tail v.chain in
    let below : u.free_head < u.cur = omega (arith, head, v.distinct.0) in
    let h = (u.free_head + u.base) % 2 ^ 32 in
    let at_u : index_of u h ≡ u.free_head =
      index_of-handle u u.free_head (omega (arith, below, v.cur_max, v.max_limit)) v.base_limit in
    let at_t : index_of t h ≡ u.free_head = ap (λ x. (h + 2 ^ 32 - x) % 2 ^ 32) b ∙ at_u in
    let free =
      Chain-free u.cells u.free_head u.free_head (i ∷ fs) u.free_tail v.chain
        (ground (arith, head)) in
    given
      (λ w.
        let w' = subst (Used t) at_t w in
        let (_, same) = keeps u.free_head w' in
        let hit : is_free_word (t.cells u.free_head).word ≡ true =
          subst (λ e. is_free_word e.word ≡ true) same free in
        absurd (ground (arith, hit, w'.1)))
      (find_object-taken u obj ctx h at_u below used)
      (λ k w other.
        let (below_k, same) = keeps k w in
        let apart : k ≢ u.free_head = subst (λ x. k ≢ x) at_t other in
        (below_k, take_free-cells u obj ctx k apart ∙ same))
      (fs, take_free-Wf u i fs obj ctx v)
