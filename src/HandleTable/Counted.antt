-- ===== src/HandleTable/Counted.antt =====
-- The number of handles that a handle table counts, and what its destruction deletes, in
-- common/misc/handletable.c and common/misc/handletablectx.c.
use virtualbox_drv.Common.{
  ℕ, zero, suc, ◌+◌, ◌-◌, ◌*◌, ◌%◌, ◌^◌, ◌<◌, ◌≤◌, ◌≡◌, ◌≢◌, refl, Bool, true, false, List, [], ◌∷◌,
  ◌++◌, map, length, length-append, arith, ap, ltb, ◌==◌, Bool-cases, inl, inr, subst, sym, success,
}
use virtualbox_drv.HandleTable.{Entry, HandleTable, is_free_word, handle_table_magic}
use virtualbox_drv.HandleTable.WellFormed.{Wf}
use virtualbox_drv.HandleTable.Destroy.{used_from, destroy_walk, delete_of, destroy_table}

-- The counter of handles is the number of entries that hold objects.
abbrev pub IsCounted : HandleTable → Type 0
IsCounted t = t.allocated ≡ length (used_from t.cells 0 t.cur)

pub used_from-append :
    (f : ℕ → Entry) (i n m k : ℕ)
    → k ≡ n + m
    → used_from f i k ≡ used_from f i n ++ used_from f (i + n) m
unfolding used_from
used_from-append f i zero m k e =
    let same : k ≡ m = omega (arith, e) in
    let start : i ≡ i + 0 = omega arith in rw (same, ← start) refl
used_from-append f i (suc n) m zero e = absurd (omega (arith, e))
used_from-append f i (suc n) m (suc k) e =
    let shift : i + 1 + n ≡ i + suc n = omega arith in
    let step : used_from f (i + 1) k ≡ used_from f (i + 1) n ++ used_from f (i + suc n) m =
      subst (λ j. used_from f (i + 1) k ≡ used_from f (i + 1) n ++ used_from f j m) shift
        (used_from-append f (i + 1) n m k (omega (arith, e))) in
    elim (Bool-cases (is_free_word (f i).word)) [
      | inl free ↦ rw free step
      | inr used ↦ rw used (ap (λ is. i ∷ is) step)
    ]

pub length-used_from : (f : ℕ → Entry) (i n : ℕ) → length (used_from f i n) ≤ n
unfolding used_from
length-used_from f i zero = omega arith
length-used_from f i (suc n) = ground (arith, length-used_from f (i + 1) n)

length-nil : (is : List ℕ) → length is ≡ 0 → is ≡ []
length-nil [] e = refl
length-nil (i ∷ is) e = absurd (omega (arith, e))

-- The walk over the tables behind index `i1 * 2048` finds what is left there.
destroy_walk-used_from :
    (t : HandleTable) (n i1 left rest : ℕ)
    → t.cur % 2048 ≡ 0
    → t.cur ≤ (i1 + n) * 2048
    → i1 * 2048 + rest ≡ t.cur
    → rest < 2 ^ 32
    → left ≡ length (used_from t.cells (i1 * 2048) rest)
    → destroy_walk t n i1 left ≡ used_from t.cells (i1 * 2048) rest
unfolding destroy_walk
destroy_walk-used_from t zero i1 left rest whole fits split small e =
    let none_left : rest ≡ 0 = omega arith in rw none_left (unfold used_from in refl)
destroy_walk-used_from t (suc n) i1 left rest whole fits split small e =
    elim (Bool-cases (left == 0)) [
      | inl done ↦
          let empty = length-nil (used_from t.cells (i1 * 2048) rest) (ground (arith, e, done)) in
          rw (done, empty) refl
      | inr more ↦
          let some_left : 0 < left = ground (arith, more) in
          let bound = length-used_from t.cells (i1 * 2048) rest in
          let here : ltb (i1 * 2048) t.cur ≡ true = ground (arith, some_left, bound, e, split) in
          let tail : 2048 ≤ rest = omega arith in
          let parts =
            used_from-append t.cells (i1 * 2048) 2048 (rest - 2048) rest (omega (arith, tail)) in
          let start : i1 * 2048 + 2048 ≡ (i1 + 1) * 2048 = omega arith in
          let total : length (used_from t.cells (i1 * 2048) rest)
              ≡ length (used_from t.cells (i1 * 2048) 2048)
                + length (used_from t.cells ((i1 + 1) * 2048) (rest - 2048)) =
            rw (parts, ← start)
              (length-append (used_from t.cells (i1 * 2048) 2048)
                (used_from t.cells (i1 * 2048 + 2048) (rest - 2048))) in
          let few = length-used_from t.cells (i1 * 2048) 2048 in
          let rec =
            destroy_walk-used_from t n (i1 + 1)
              ((left + 2 ^ 32 - length (used_from t.cells (i1 * 2048) 2048)) % 2 ^ 32) (rest - 2048)
              whole (omega arith) (omega arith) (omega arith) (omega (arith, total, e, bound)) in
          rw (more, here, parts, start, rec) refl
    ]

-- RTHandleTableDestroy of a well-formed table, whose counter of handles is right, calls the delete
-- callback for exactly the entries that hold objects, each once and in the order of the handles.
pub destroy_table-used_from :
    (t : HandleTable) (fs : List ℕ)
    → Wf t fs
    → IsCounted t
    → t.magic ≡ handle_table_magic
    → destroy_table t ≡ (map (delete_of t) (used_from t.cells 0 t.cur), success)
unfolding destroy_table
destroy_table-used_from t fs v counted alive =
    let e : (t.magic == handle_table_magic) ≡ true = ground (arith, alive) in
    let walk =
      destroy_walk-used_from t t.c_level1 0 t.allocated t.cur v.cur_whole (omega (arith, v.level1))
        (omega arith) (omega (arith, v.cur_max, v.max_limit)) counted in
    rw (e, walk, destroy_table) refl

-- Entries that are free or in use alike.
abbrev pub flag : (ℕ → Entry) → ℕ → Bool
flag f j = is_free_word (f j).word

pub used_from-same :
    (f g : ℕ → Entry) (i n : ℕ)
    → ((j : ℕ) → i ≤ j → j < i + n → flag g j ≡ flag f j)
    → used_from g i n ≡ used_from f i n
unfolding used_from
used_from-same f g i zero h = refl
used_from-same f g i (suc n) h =
    let here = h i (omega arith) (omega arith) in
    let rec = used_from-same f g (i + 1) n (λ j a b. h j (omega arith) (omega arith)) in
    rw (here, rec) refl

pub used_from-free :
    (f : ℕ → Entry) (i n : ℕ)
    → ((j : ℕ) → i ≤ j → j < i + n → flag f j ≡ true)
    → used_from f i n ≡ []
unfolding used_from
used_from-free f i zero h = refl
used_from-free f i (suc n) h =
    let here = h i (omega arith) (omega arith) in
    let rec = used_from-free f (i + 1) n (λ j a b. h j (omega arith) (omega arith)) in
    rw (here, rec) refl

-- One entry more in use.
pub used_from-more :
    (f g : ℕ → Entry) (k i n : ℕ)
    → ((j : ℕ) → j ≢ k → flag g j ≡ flag f j)
    → i ≤ k
    → k < i + n
    → flag f k ≡ true
    → flag g k ≡ false
    → length (used_from g i n) ≡ length (used_from f i n) + 1
unfolding used_from
used_from-more f g k i zero h a b free used = absurd (omega arith)
used_from-more f g k i (suc n) h a b free used = elim (Bool-cases (i == k)) [
  | inl same ↦
      let e : i ≡ k = ground (arith, same) in
      let free_i : flag f i ≡ true = subst (λ x. flag f x ≡ true) (sym e) free in
      let used_i : flag g i ≡ false = subst (λ x. flag g x ≡ false) (sym e) used in
      let rest =
        used_from-same f g (i + 1) n (λ j p q. h j (λ r. absurd (omega (arith, p, r, e)))) in
      rw (free_i, used_i, rest) (omega arith)
  | inr other ↦
      let apart : i ≢ k = ground (arith, other) in
      let here = h i apart in
      let rec =
        used_from-more f g k (i + 1) n h (omega (arith, a, apart)) (omega arith) free used in
      rw here (ground (arith, rec))
]
