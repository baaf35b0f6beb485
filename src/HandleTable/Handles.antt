-- ===== src/HandleTable/Handles.antt =====
-- What a client of a handle table of common/misc/handletablectx.c sees: a handle that is freed, and
-- the handles beside it.
use virtualbox_drv.Common.{
  ℕ, ◌+◌, ◌-◌, ◌%◌, ◌^◌, ◌<◌, ◌≡◌, ◌≢◌, refl, true, false, not, Option, none, some, List, [], ◌∷◌,
  ◌++◌, arith, ltb, ◌==◌, Bool-cases, inl, inr, subst, eq_self, Status, rt_success, ap, ◌⊎◌,
}
use virtualbox_drv.HandleTable.{
  HandleTable, is_free_word, nil_index, index_of, lookup_index, find_object, retained,
  lookup_with_ctx, link_free, free_with_ctx, handle_table_magic,
}
use virtualbox_drv.HandleTable.FreeList.{Chain-tail, Chain-free, is_free_word-free_word}
use virtualbox_drv.HandleTable.WellFormed.{
  Wf, IsWf, Used, link_free-Wf, link_free-empty, link_free-behind, cleared, tail_nil,
}

-- The entries that stay as they are.
abbrev pub Keeps : HandleTable → HandleTable → (except : ℕ) → Type 0
Keeps t u i = (k : ℕ) → Used t k → k ≢ i → (k < u.cur) × (u.cells k ≡ t.cells k)

pub tail_free :
    (t : HandleTable) (j : ℕ) (js : List ℕ)
    → Wf t (j ∷ js)
    → is_free_word (t.cells t.free_tail).word ≡ true
tail_free t j js v =
    Chain-free t.cells t.free_tail t.free_head (j ∷ js) t.free_tail v.chain
      (Chain-tail t.cells t.free_head j js t.free_tail v.chain)

-- The entry that is linked is free, and the other used ones stay.
pub link_free-Keeps :
    (t : HandleTable) (i : ℕ) (fs : List ℕ)
    → Wf t fs
    → Used t i
    → (is_free_word ((link_free t i).cells i).word ≡ true) × Keeps t (link_free t i) i
unfolding cleared
link_free-Keeps t i [] v u =
    let empty : (t.free_tail == nil_index) ≡ true = ground (arith, v.chain) in
    rw (link_free-empty t i empty, eq_self i)
      (refl, λ k w other. (w.0, let e : (i == k) ≡ false = ground (arith, other) in rw e refl))
link_free-Keeps t i (j ∷ js) v u =
    let free = tail_free t j js v in
    rw (link_free-behind t i (tail_nil t j js v)) (
      elim (Bool-cases (t.free_tail == i)) [
        | inl same ↦ rw same (is_free_word-free_word i)
        | inr apart ↦ rw (apart, eq_self i) refl
      ],
      λ k w other.
          let e : (i == k) ≡ false = ground (arith, other) in
          elim (Bool-cases (t.free_tail == k)) [
            | inl same ↦
                let hit : is_free_word (t.cells k).word ≡ true =
                  subst (λ x. is_free_word (t.cells x).word ≡ true) (ground (arith, same)) free in
                absurd (ground (arith, hit, w.1))
            | inr apart ↦ (w.0, rw (apart, e) refl)
          ],
    )

retained_cases :
    (retain : Option (ℕ → ℕ → Status)) (obj ctx : ℕ)
    → (retained retain obj ctx ≡ 0) ⊎ (retained retain obj ctx ≡ obj)
retained_cases none obj ctx = inr refl
retained_cases (some f) obj ctx = elim (Bool-cases (rt_success (f obj ctx))) [
  | inl t ↦ inr (rw t refl)
  | inr e ↦ inl (rw e refl)
]

-- What a handle leads to: an entry that holds an object, with the context of the caller.
abbrev pub Leads : HandleTable → (h ctx : ℕ) → Type 0
Leads t h ctx = Used t (index_of t h) × ((t.cells (index_of t h)).ctx ≡ ctx)

-- What is found behind a handle is nothing, or the object of its entry.
pub find_object_cases :
    (retain : Option (ℕ → ℕ → Status)) (t : HandleTable) (h ctx : ℕ)
    → (find_object retain t h ctx ≡ 0)
      ⊎ (Leads t h ctx × (find_object retain t h ctx ≡ (t.cells (index_of t h)).word))
unfolding find_object lookup_index
find_object_cases retain t h ctx =
    let i = index_of t h in
    let e = t.cells i in
    elim (Bool-cases (ltb i t.cur)) [
      | inr beyond ↦ inl (rw (beyond, find_object, lookup_index) refl)
      | inl below ↦ elim (Bool-cases (e.ctx == ctx)) [
        | inr foreign ↦ inl (rw (below, find_object, lookup_index, foreign) refl)
        | inl own ↦ elim (Bool-cases (is_free_word e.word)) [
          | inl free ↦ inl (rw (below, find_object, lookup_index, own, free) refl)
          | inr used ↦ elim (retained_cases retain e.word ctx) [
            | inl refused ↦ inl (rw (below, find_object, lookup_index, own, used) refused)
            | inr kept ↦ inr (
              ((ground (arith, below), used), ground (arith, own)),
              rw (below, find_object, lookup_index, own, used) kept,
            )
          ]
        ]
      ]
    ]

-- Nothing is found behind a handle whose entry is free.
pub find_object-free :
    (retain : Option (ℕ → ℕ → Status)) (t : HandleTable) (h ctx : ℕ)
    → is_free_word (t.cells (index_of t h)).word ≡ true
    → find_object retain t h ctx ≡ 0
find_object-free retain t h ctx e = elim (find_object_cases retain t h ctx) [
  | inl null ↦ null
  | inr (leads, found) ↦ absurd (ground (arith, e, leads.0.1))
]

-- A handle whose entry stayed is found as before, if there was something to find.
pub find_object-Keeps :
    (retain : Option (ℕ → ℕ → Status)) (t u : HandleTable) (h ctx : ℕ)
    → u.base ≡ t.base
    → (index_of t h < u.cur) × (u.cells (index_of t h) ≡ t.cells (index_of t h))
    → Used t (index_of t h)
    → find_object retain u h ctx ≡ find_object retain t h ctx
unfolding find_object lookup_index
find_object-Keeps retain t u h ctx b k w =
    let same : index_of u h ≡ index_of t h = ap (λ x. (h + 2 ^ 32 - x) % 2 ^ 32) b in
    let below : ltb (index_of t h) t.cur ≡ true = ground (arith, w) in
    let below_u : ltb (index_of t h) u.cur ≡ true = ground (arith, k) in
    rw (same, below, below_u, k.1, find_object, lookup_index) refl

link_free_base : (t : HandleTable) (i : ℕ) → (link_free t i).base ≡ t.base
unfolding link_free
link_free_base t i = elim (Bool-cases (t.free_tail == nil_index)) [
  | inl e ↦ rw (e, link_free) refl
  | inr e ↦ rw (e, link_free) refl
]

-- What freeing a handle does: nothing, if the handle leads to no object or the object is not
-- retained; or its object is returned, nothing is found behind the handle any more, and every other
-- handle of an object is found as before.
pub data Freed (retain : Option (ℕ → ℕ → Status)) (t : HandleTable) (h ctx : ℕ)
    : HandleTable × ℕ → Type 0 where
  refused : lookup_with_ctx retain t h ctx ≡ 0 → Freed retain t h ctx (t, 0)
  freed :
      {u : HandleTable} {obj : ℕ}
      → obj ≢ 0
      → Leads t h ctx
      → obj ≡ (t.cells (index_of t h)).word
      → ((r : Option (ℕ → ℕ → Status)) (c : ℕ) → find_object r u h c ≡ 0)
      → ((r : Option (ℕ → ℕ → Status)) (g c : ℕ)
          → index_of t g ≢ index_of t h
          → Used t (index_of t g)
          → find_object r u g c ≡ find_object r t g c)
      → IsWf u
      → Freed retain t h ctx (u, obj)

free_found-Freed :
    (retain : Option (ℕ → ℕ → Status)) (t : HandleTable) (h ctx : ℕ)
    → IsWf t
    → (o : ℕ) → o ≢ 0
    → Leads t h ctx
    → o ≡ (t.cells (index_of t h)).word
    → Freed retain t h ctx (link_free t (index_of t h), o)
free_found-Freed retain t h ctx (fs, v) o set leads word =
    let i = index_of t h in
    let u = link_free t i in
    let (free, keeps) = link_free-Keeps t i fs v leads.0 in
    let same : index_of u h ≡ i = ap (λ x. (h + 2 ^ 32 - x) % 2 ^ 32) (link_free_base t i) in
    freed set leads word (λ r c. find_object-free r u h c (rw same free))
      (λ r g c other w.
        find_object-Keeps r t u g c (link_free_base t i) (keeps (index_of t g) w other) w)
      (fs ++ i ∷ [], link_free-Wf t i fs v leads.0)

pub lookup_with_ctx_cases :
    (retain : Option (ℕ → ℕ → Status)) (t : HandleTable) (h ctx : ℕ)
    → (lookup_with_ctx retain t h ctx ≡ 0)
      ⊎ (Leads t h ctx × (lookup_with_ctx retain t h ctx ≡ (t.cells (index_of t h)).word))
unfolding lookup_with_ctx
lookup_with_ctx_cases retain t h ctx = elim (find_object_cases retain t h ctx) [
  | inl null ↦ inl (ground (arith, null))
  | inr (leads, found) ↦ elim (Bool-cases (not (t.magic == handle_table_magic))) [
    | inl dead ↦ inl (rw (dead, lookup_with_ctx) refl)
    | inr alive ↦ elim (Bool-cases (not t.has_context)) [
      | inl plain ↦ inl (rw (alive, plain, lookup_with_ctx) refl)
      | inr context ↦ inr (leads, rw (alive, context, lookup_with_ctx) found)
    ]
  ]
]

-- RTHandleTableFreeWithCtx on a well-formed table ends in one of the outcomes above.
pub free_with_ctx-Freed :
    (retain : Option (ℕ → ℕ → Status)) (t : HandleTable) (h ctx : ℕ)
    → IsWf t
    → Freed retain t h ctx (free_with_ctx retain t h ctx)
unfolding free_with_ctx
free_with_ctx-Freed retain t h ctx v = elim (Bool-cases (lookup_with_ctx retain t h ctx == 0)) [
  | inl null ↦ rw (null, free_with_ctx) (refused (ground (arith, null)))
  | inr set ↦ elim (lookup_with_ctx_cases retain t h ctx) [
    | inl null ↦ absurd (ground (arith, set, null))
    | inr (leads, found) ↦
        rw (set, free_with_ctx)
          (free_found-Freed retain t h ctx v (lookup_with_ctx retain t h ctx) (ground (arith, set))
            leads found)
  ]
]
