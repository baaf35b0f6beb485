-- ===== src/HandleTable/FreeList.antt =====
-- The free list of a handle table as a list of indices, and what the operations of
-- common/misc/handletablectx.c do to it.
use virtualbox_drv.Common.{
  ℕ, ◌+◌, ◌*◌, ◌%◌, ◌^◌, ◌<◌, ◌≡◌, true, false, List, [], ◌∷◌, ◌++◌, arith, ◌==◌, update,
  Bool-cases, inl, inr, subst, count,
}
use virtualbox_drv.HandleTable.{Entry, is_free_word, free_word, nil_index}

-- The indices from `head` to `tail`: each entry is free and names the next.
abbrev pub Chain : (ℕ → Entry) → (head : ℕ) → List ℕ → (tail : ℕ) → Type 0
Chain f head [] tail = (head ≡ nil_index) × (tail ≡ nil_index)
Chain f head (i ∷ []) tail = (head ≡ i) × (tail ≡ i) × (is_free_word (f i).word ≡ true)
Chain f head (i ∷ j ∷ is) tail = (head ≡ i) × ((f i).word ≡ free_word j) × Chain f j (j ∷ is) tail

-- The entries are different and below a bound.
abbrev pub Distinct : (bound : ℕ) → List ℕ → Type 0
Distinct b [] = Unit {0}
Distinct b (i ∷ is) = (i < b) × (count i is ≡ 0) × Distinct b is

-- A write to an entry that is not in the list.
pub Chain-update :
    (f : ℕ → Entry) (k : ℕ) (e : Entry) (head : ℕ) (is : List ℕ) (tail : ℕ)
    → count k is ≡ 0
    → Chain f head is tail
    → Chain (update f k e) head is tail
Chain-update f k e head [] tail h c = c
Chain-update f k e head (i ∷ []) tail h c = ground (arith, c, h)
Chain-update f k e head (i ∷ j ∷ is) tail h c =
    (c.0, ground (arith, c.1, h), Chain-update f k e j (j ∷ is) tail (ground (arith, h)) c.2)

pub is_free_word-free_word : (j : ℕ) → is_free_word (free_word j) ≡ true
is_free_word-free_word j = let e : (j * 4 + 3) % 2 ^ 64 % 4 ≡ 3 = omega arith in ground (arith, e)

-- All its entries are free.
pub Chain-free :
    (f : ℕ → Entry) (k : ℕ) (head : ℕ) (is : List ℕ) (tail : ℕ)
    → Chain f head is tail
    → 0 < count k is
    → is_free_word (f k).word ≡ true
Chain-free f k head [] tail c h = absurd (omega arith)
Chain-free f k head (i ∷ []) tail c h = ground (arith, c, h)
Chain-free f k head (i ∷ j ∷ is) tail c h = elim (Bool-cases (i == k)) [
  | inl here ↦
      let same : i ≡ k = ground (arith, here) in
      let word : (f k).word ≡ free_word j = subst (λ x. (f x).word ≡ free_word j) same c.1 in
      rw word (is_free_word-free_word j)
  | inr there ↦ Chain-free f k j (j ∷ is) tail c.2 (ground (arith, h, there))
]

-- The tail is an entry of it.
pub Chain-tail :
    (f : ℕ → Entry) (head i : ℕ) (is : List ℕ) (tail : ℕ)
    → Chain f head (i ∷ is) tail
    → 0 < count tail (i ∷ is)
Chain-tail f head i [] tail c = ground (arith, c)
Chain-tail f head i (j ∷ is) tail c = ground (arith, Chain-tail f j j is tail c.2)

-- The list goes on behind its tail when the tail's entry names the next list's head.
pub Chain-append :
    (f : ℕ → Entry) (head i : ℕ) (is : List ℕ) (tail j : ℕ) (js : List ℕ) (last : ℕ) (e : Entry)
    (bound : ℕ)
    → Chain f head (i ∷ is) tail
    → Chain f j (j ∷ js) last
    → count tail (j ∷ js) ≡ 0
    → Distinct bound (i ∷ is)
    → e.word ≡ free_word j
    → Chain (update f tail e) head ((i ∷ is) ++ j ∷ js) last
Chain-append f head i [] tail j js last e bound c d h u w =
    (c.0, ground (arith, c.1, w), Chain-update f tail e j (j ∷ js) last h d)
Chain-append f head i (k ∷ is) tail j js last e bound c d h u w =
    let at_tail = Chain-tail f k k is tail c.2 in
    let other : (tail == i) ≡ false = elim (Bool-cases (tail == i)) [
      | inl same ↦
          let eq : tail ≡ i = ground (arith, same) in
          let there : 0 < count i (k ∷ is) = subst (λ x. 0 < count x (k ∷ is)) eq at_tail in
          absurd (omega (arith, there, u.1))
      | inr b ↦ b
    ] in
    (c.0, rw other c.1, Chain-append f k k is tail j js last e bound c.2 d h u.2 w)
