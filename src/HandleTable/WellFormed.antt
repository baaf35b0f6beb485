-- ===== src/HandleTable/WellFormed.antt =====
-- The well-formed handle tables, and that the writes of common/misc/handletablectx.c keep them so.
use virtualbox_drv.Common.{
  ℕ, ◌+◌, ◌-◌, ◌*◌, ◌%◌, ◌^◌, ◌<◌, ◌≤◌, ◌≡◌, refl, true, false, List, [], ◌∷◌, ◌++◌, arith, ◌==◌,
  if◌then◌else◌, update, Bool-cases, inl, inr, subst, sym, dec32, count, eq_self,
}
use virtualbox_drv.HandleTable.{
  Entry, HandleTable, is_free_word, free_word, free_index, free_ctx, nil_index, take_free,
  link_free,
}
use virtualbox_drv.HandleTable.FreeList.{
  Chain, Distinct, Chain-update, Chain-free, Chain-tail, Chain-append,
}

-- `fs` is the free list; the number of entries and its limit are whole second level tables, and the
-- first level table has room for those that are there.
pub record Wf (t : HandleTable) (fs : List ℕ) : Type 0 where
  pub chain : Chain t.cells t.free_head fs t.free_tail
  pub distinct : Distinct t.cur fs
  pub cur_whole : t.cur % 2048 ≡ 0
  pub max_whole : t.max % 2048 ≡ 0
  pub cur_max : t.cur ≤ t.max
  pub max_limit : t.max ≤ 2 ^ 32 - 2048
  pub level1 : t.cur ≤ t.c_level1 * 2048
  pub base_limit : t.base < 2 ^ 32

abbrev pub IsWf : HandleTable → Type 0
IsWf t = (fs : List ℕ) × Wf t fs

-- The index is of an entry that holds an object.
abbrev pub Used : HandleTable → ℕ → Type 0
Used t i = (i < t.cur) × (is_free_word (t.cells i).word ≡ false)

pub Distinct-member : (b k : ℕ) (is : List ℕ) → Distinct b is → 0 < count k is → k < b
Distinct-member b k [] d h = absurd (omega arith)
Distinct-member b k (i ∷ is) d h = ground (arith, d, Distinct-member b k is d.2)

pub not_listed : (t : HandleTable) (fs : List ℕ) (i : ℕ) → Wf t fs → Used t i → count i fs ≡ 0
not_listed t fs i v (below, used) = elim (Bool-cases (count i fs == 0)) [
  | inl e ↦ ground (arith, e)
  | inr e ↦ absurd (
      ground
        (arith, used, Chain-free t.cells i t.free_head fs t.free_tail v.chain (ground (arith, e))))
]

pub chain_head : (f : ℕ → Entry) (h i : ℕ) (is : List ℕ) (t : ℕ) → Chain f h (i ∷ is) t → h ≡ i
chain_head f h i [] t c = c.0
chain_head f h i (j ∷ is) t c = c.0

free_index-free_word : (j : ℕ) → j < 2 ^ 32 → free_index (free_word j) ≡ j
free_index-free_word j h = omega arith

-- Two entries of a list of different entries, the first of them its head.
head_apart : (b i k : ℕ) (is : List ℕ) → Distinct b (i ∷ is) → 0 < count k is → (i == k) ≡ false
head_apart b i k is d h = elim (Bool-cases (i == k)) [
  | inr other ↦ other
  | inl same ↦
      let there : 0 < count i is = subst (λ x. 0 < count x is) (ground (arith, same)) h in
      absurd (omega (arith, there, d.1))
]

taken_chain :
    (f : ℕ → Entry) (head i : ℕ) (fs : List ℕ) (tail b : ℕ) (e : Entry)
    → Chain f head (i ∷ fs) tail
    → Distinct b (i ∷ fs)
    → b < 2 ^ 32
    → Chain
        (update f head e)
        (if head == tail then nil_index else free_index (f head).word)
        fs
        (if head == tail then nil_index else tail)
taken_chain f head i [] tail b e c d h =
    let same : (head == tail) ≡ true = ground (arith, c) in rw same (refl, refl)
taken_chain f head i (j ∷ js) tail b e c d h =
    let at_tail = Chain-tail f j j js tail c.2 in
    let apart : (head == tail) ≡ false = rw c.0 (head_apart b i tail (j ∷ js) d at_tail) in
    let word : (f head).word ≡ free_word j = rw c.0 c.1 in
    let next : free_index (f head).word ≡ j =
      rw word (free_index-free_word j (omega (arith, d, h))) in
    let free : count head (j ∷ js) ≡ 0 = subst (λ x. count x (j ∷ js) ≡ 0) (sym c.0) d.1 in
    rw (apart, next) (Chain-update f head e j (j ∷ js) tail free c.2)

-- Taking the head of the list.
pub take_free-Wf :
    (t : HandleTable) (i : ℕ) (fs : List ℕ) (obj ctx : ℕ)
    → Wf t (i ∷ fs)
    → Wf (take_free t obj ctx) fs
unfolding take_free
take_free-Wf t i fs obj ctx v = record {
  chain =
      taken_chain t.cells t.free_head i fs t.free_tail t.cur (record { word = obj; ctx = ctx })
        v.chain v.distinct (omega (arith, v.cur_max, v.max_limit));
  distinct = v.distinct.2;
  cur_whole = v.cur_whole;
  max_whole = v.max_whole;
  cur_max = v.cur_max;
  max_limit = v.max_limit;
  level1 = v.level1;
  base_limit = v.base_limit;
}

Distinct-append :
    (b i : ℕ) (is : List ℕ) → i < b → count i is ≡ 0 → Distinct b is → Distinct b (is ++ i ∷ [])
Distinct-append b i [] h k d = (h, refl, tt)
Distinct-append b i (j ∷ is) h k d = (
  d.0,
  ground (arith, k, d.1, count-append j is),
  Distinct-append b i is h (ground (arith, k)) d.2,
)
  where
    count-append :
        (q : ℕ) (ks : List ℕ) → count q (ks ++ i ∷ []) ≡ count q ks + (if i == q then 1 else 0)
    count-append q [] = omega arith
    count-append q (k ∷ ks) = omega (arith, count-append q ks)

-- The tail of a list is `nil_index` exactly when the list is empty.
pub tail_nil :
    (t : HandleTable) (i : ℕ) (fs : List ℕ) → Wf t (i ∷ fs) → (t.free_tail == nil_index) ≡ false
tail_nil t i fs v =
    let below =
      Distinct-member t.cur t.free_tail (i ∷ fs) v.distinct
        (Chain-tail t.cells t.free_head i fs t.free_tail v.chain) in
    ground (arith, below, v.cur_max, v.max_limit)

unfoldable pub cleared : HandleTable → ℕ → ℕ → Entry
cleared t i = update t.cells i (record { word = free_word nil_index; ctx = free_ctx })

pub link_free-empty :
    (t : HandleTable) (i : ℕ)
    → (t.free_tail == nil_index) ≡ true
    → link_free t i ≡ record t {
      cells = cleared t i;
      free_head = i;
      free_tail = i;
      allocated = dec32 t.allocated;
    }
unfolding link_free cleared
link_free-empty t i e = rw (e, link_free) refl

pub link_free-behind :
    (t : HandleTable) (i : ℕ)
    → (t.free_tail == nil_index) ≡ false
    → link_free t i ≡ record t {
      cells =
          update
            (cleared t i)
            t.free_tail
            (record (cleared t i t.free_tail) { word = free_word i });
      free_tail = i;
      allocated = dec32 t.allocated;
    }
unfolding link_free cleared
link_free-behind t i e = rw (e, link_free) refl

freed_apart :
    (t : HandleTable) (i j : ℕ) (js : List ℕ)
    → Wf t (j ∷ js)
    → Used t i
    → count t.free_tail (i ∷ []) ≡ 0
freed_apart t i j js v u = elim (Bool-cases (i == t.free_tail)) [
  | inr other ↦ ground (arith, other)
  | inl same ↦
      let at_tail = Chain-tail t.cells t.free_head j js t.free_tail v.chain in
      let there : 0 < count i (j ∷ js) =
        subst (λ x. 0 < count x (j ∷ js)) (sym (ground (arith, same))) at_tail in
      absurd (omega (arith, there, not_listed t (j ∷ js) i v u))
]

-- A used entry becomes the tail of the list.
pub link_free-Wf :
    (t : HandleTable) (i : ℕ) (fs : List ℕ) → Wf t fs → Used t i → Wf (link_free t i) (fs ++ i ∷ [])
unfolding cleared
link_free-Wf t i [] v u =
    let empty : (t.free_tail == nil_index) ≡ true = ground (arith, v.chain) in
    rw (link_free-empty t i empty) (record {
      chain = (refl, refl, rw (eq_self i) refl);
      distinct = (u.0, refl, tt);
      cur_whole = v.cur_whole;
      max_whole = v.max_whole;
      cur_max = v.cur_max;
      max_limit = v.max_limit;
      level1 = v.level1;
      base_limit = v.base_limit;
    })
link_free-Wf t i (j ∷ js) v u =
    let absent = not_listed t (j ∷ js) i v u in
    rw (link_free-behind t i (tail_nil t j js v)) (record {
      chain =
          Chain-append (cleared t i) t.free_head j js t.free_tail i [] i
            (record (cleared t i t.free_tail) { word = free_word i }) t.cur
            (Chain-update t.cells i _ t.free_head (j ∷ js) t.free_tail absent v.chain)
            (refl, refl, rw (eq_self i) refl) (freed_apart t i j js v u) v.distinct refl;
      distinct = Distinct-append t.cur i (j ∷ js) u.0 absent v.distinct;
      cur_whole = v.cur_whole;
      max_whole = v.max_whole;
      cur_max = v.cur_max;
      max_limit = v.max_limit;
      level1 = v.level1;
      base_limit = v.base_limit;
    })
