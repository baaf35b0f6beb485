-- ===== src/HandleTable/Expansion.antt =====
-- The expansion of a handle table of common/misc/handletablectx.c by a second level table.
use virtualbox_drv.Common.{
  ℕ, zero, suc, ◌+◌, ◌/◌, ◌<◌, ◌≤◌, ◌≡◌, refl, true, false, List, [], ◌∷◌, ◌++◌, arith, ◌==◌,
  update, count,
}
use virtualbox_drv.HandleTable.{Entry, HandleTable, free_word, nil_index, link_table, new_cells}
use virtualbox_drv.HandleTable.FreeList.{Chain, Distinct, Chain-tail, Chain-append}
use virtualbox_drv.HandleTable.WellFormed.{Wf, Distinct-member, tail_nil}

-- The numbers from `a` on.
unfoldable pub range : (a n : ℕ) → List ℕ
range a zero = []
range a (suc n) = a ∷ range (a + 1) n

new_chain :
    (cur : ℕ) (f : ℕ → Entry) (n a : ℕ)
    → cur ≤ a
    → a + n ≡ cur + 2047
    → Chain (new_cells cur f) a (a ∷ range (a + 1) n) (cur + 2047)
unfolding range
new_chain cur f zero a h e = (refl, omega arith, ground arith)
new_chain cur f (suc n) a h e =
    (refl, ground arith, new_chain cur f n (a + 1) (omega arith) (omega arith))

-- A list below a bound does not see what is above it.
Chain-below :
    (f g : ℕ → Entry) (b head : ℕ) (is : List ℕ) (tail : ℕ)
    → ((k : ℕ) → k < b → g k ≡ f k)
    → Distinct b is
    → Chain f head is tail
    → Chain g head is tail
Chain-below f g b head [] tail same d c = c
Chain-below f g b head (i ∷ []) tail same d c = (c.0, c.1, rw (same i d.0) c.2)
Chain-below f g b head (i ∷ j ∷ is) tail same d c =
    (c.0, rw (same i d.0) c.1, Chain-below f g b j (j ∷ is) tail same d.2 c.2)

count-append : (q : ℕ) (is js : List ℕ) → count q (is ++ js) ≡ count q is + count q js
count-append q [] js = omega arith
count-append q (k ∷ is) js = omega (arith, count-append q is js)

count-range : (q a n : ℕ) → q < a → count q (range a n) ≡ 0
unfolding range
count-range q a zero h = refl
count-range q a (suc n) h = ground (arith, count-range q (a + 1) n (omega arith))

Distinct-range : (b a n : ℕ) → a + n ≤ b → Distinct b (range a n)
unfolding range
Distinct-range b a zero h = tt
Distinct-range b a (suc n) h =
    (omega arith, count-range a (a + 1) n (omega arith), Distinct-range b (a + 1) n (omega arith))

-- New indices behind those below them.
Distinct-new :
    (b c : ℕ) (is js : List ℕ)
    → b ≤ c
    → Distinct b is
    → ((k : ℕ) → k < b → count k js ≡ 0)
    → Distinct c js
    → Distinct c (is ++ js)
Distinct-new b c [] js h d apart e = e
Distinct-new b c (i ∷ is) js h d apart e = (
  omega (arith, d.0),
  omega (arith, d.1, apart i d.0, count-append i is js),
  Distinct-new b c is js h d.2 apart e,
)

pub link_table-empty :
    (t : HandleTable)
    → (t.free_tail == nil_index) ≡ true
    → link_table t ≡ record t {
      cells = new_cells t.cur t.cells;
      free_head = t.cur;
      free_tail = t.cur + 2047;
      cur = t.cur + 2048;
    }
unfolding link_table
link_table-empty t e = rw (e, link_table) refl

pub link_table-behind :
    (t : HandleTable)
    → (t.free_tail == nil_index) ≡ false
    → link_table t ≡ record t {
      cells =
          update
            (new_cells t.cur t.cells)
            t.free_tail
            (record (new_cells t.cur t.cells t.free_tail) { word = free_word t.cur });
      free_tail = t.cur + 2047;
      cur = t.cur + 2048;
    }
unfolding link_table
link_table-behind t e = rw (e, link_table) refl

-- The entries of a new table.
abbrev pub fresh_indices : ℕ → List ℕ
fresh_indices cur = cur ∷ range (cur + 1) 2047

count-fresh_indices : (q cur : ℕ) → q < cur → count q (fresh_indices cur) ≡ 0
count-fresh_indices q cur h = ground (arith, count-range q (cur + 1) 2047 (omega arith))

Distinct-fresh_indices : (cur : ℕ) → Distinct (cur + 2048) (fresh_indices cur)
Distinct-fresh_indices cur = (
  omega arith,
  count-range cur (cur + 1) 2047 (omega arith),
  Distinct-range (cur + 2048) (cur + 1) 2047 (omega arith),
)

-- The new entries join the free list behind its tail.
pub link_table-Wf :
    (t : HandleTable) (fs : List ℕ)
    → Wf t fs
    → t.cur < t.max
    → t.cur / 2048 < t.c_level1
    → Wf (link_table t) (fs ++ fresh_indices t.cur)
link_table-Wf t [] v room place =
    let empty : (t.free_tail == nil_index) ≡ true = ground (arith, v.chain) in
    rw (link_table-empty t empty) (record {
      chain = new_chain t.cur t.cells 2047 t.cur (omega arith) (omega arith);
      distinct = Distinct-fresh_indices t.cur;
      cur_whole = omega (arith, v.cur_whole);
      max_whole = v.max_whole;
      cur_max = omega (arith, v.cur_whole, v.max_whole);
      max_limit = v.max_limit;
      level1 = omega (arith, place, v.cur_whole);
      base_limit = v.base_limit;
    })
link_table-Wf t (j ∷ js) v room place =
    let f = new_cells t.cur t.cells in
    let old =
      Chain-below t.cells f t.cur t.free_head (j ∷ js) t.free_tail (λ k h. ground arith) v.distinct
        v.chain in
    let below =
      Distinct-member t.cur t.free_tail (j ∷ js) v.distinct
        (Chain-tail t.cells t.free_head j js t.free_tail v.chain) in
    rw (link_table-behind t (tail_nil t j js v)) (record {
      chain =
          Chain-append f t.free_head j js t.free_tail t.cur (range (t.cur + 1) 2047) (t.cur + 2047)
            (record (f t.free_tail) { word = free_word t.cur }) t.cur old
            (new_chain t.cur t.cells 2047 t.cur (omega arith) (omega arith))
            (count-fresh_indices t.free_tail t.cur below) v.distinct refl;
      distinct =
          Distinct-new t.cur (t.cur + 2048) (j ∷ js) (fresh_indices t.cur) (omega arith) v.distinct
            (λ k h. count-fresh_indices k t.cur h) (Distinct-fresh_indices t.cur);
      cur_whole = omega (arith, v.cur_whole);
      max_whole = v.max_whole;
      cur_max = omega (arith, v.cur_whole, v.max_whole);
      max_limit = v.max_limit;
      level1 = omega (arith, place, v.cur_whole);
      base_limit = v.base_limit;
    })
