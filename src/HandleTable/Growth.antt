-- ===== src/HandleTable/Growth.antt =====
-- The expansion that RTHandleTableAllocWithCtx of common/misc/handletablectx.c makes when no other
-- thread touches the table.
use virtualbox_drv.Common.{
  ℕ, ◌/◌, ◌<◌, ◌≤◌, ◌≡◌, refl, true, false, List, [], arith, ltb, ◌==◌, if◌then◌else◌, Bool-cases,
  inl, inr, ap, ◌⊎◌,
}
use virtualbox_drv.HandleTable.{
  HandleTable, nil_index, link_table, ExpandEnv, level1_request, insert_table,
}
use virtualbox_drv.HandleTable.WellFormed.{Wf, Used}
use virtualbox_drv.HandleTable.Expansion.{link_table-Wf, link_table-empty, fresh_indices}

-- The table with the first level that is asked for.
unfoldable pub grown : HandleTable → HandleTable
grown t =
    if level1_request t == 0
    then t
    else if ltb t.c_level1 (level1_request t)
    then record t { c_level1 = level1_request t }
    else t

-- Either the first level table has room, and none is asked for, or a larger one with room is.
level1_request_lem :
    (t : HandleTable) (fs : List ℕ)
    → Wf t fs
    → t.cur < t.max
    → ((level1_request t == 0) ≡ true) × (t.cur / 2048 < t.c_level1)
      ⊎ (((level1_request t == 0) ≡ false)
          × (ltb t.c_level1 (level1_request t) ≡ true)
          × (t.cur / 2048 < level1_request t))
level1_request_lem t fs v room =
    let below : t.cur / 2048 < t.max / 2048 = omega (arith, v.cur_whole, v.max_whole) in
    let placed : t.cur / 2048 ≤ t.c_level1 = omega (arith, v.level1) in
    ground (arith, below, placed)

pub larger-Wf :
    (t : HandleTable) (fs : List ℕ) (c : ℕ)
    → Wf t fs
    → t.c_level1 ≤ c
    → Wf (record t { c_level1 = c }) fs
larger-Wf t fs c v h = record {
  chain = v.chain;
  distinct = v.distinct;
  cur_whole = v.cur_whole;
  max_whole = v.max_whole;
  cur_max = v.cur_max;
  max_limit = v.max_limit;
  level1 = omega (arith, v.level1);
  base_limit = v.base_limit;
}

grown-Wf :
    (t : HandleTable) (fs : List ℕ)
    → Wf t fs
    → t.cur < t.max
    → Wf (grown t) fs × (t.cur / 2048 < (grown t).c_level1)
unfolding grown
grown-Wf t fs v room = elim (level1_request_lem t fs v room) [
  | inl (zero_size, place) ↦ rw (zero_size, grown) (v, place)
  | inr (sized, larger, place) ↦
      rw (sized, larger, grown)
        (larger-Wf t fs (level1_request t) v (ground (arith, larger)), place)
]

-- All but the size of the first level table is as before.
grown_same :
    (t : HandleTable)
    → ((grown t).cells ≡ t.cells)
      × ((grown t).cur ≡ t.cur)
      × ((grown t).max ≡ t.max)
      × ((grown t).base ≡ t.base)
      × ((grown t).free_tail ≡ t.free_tail)
unfolding grown
grown_same t = elim (Bool-cases (level1_request t == 0)) [
  | inl e ↦ rw (e, grown) (refl, refl, refl, refl, refl)
  | inr e ↦ elim (Bool-cases (ltb t.c_level1 (level1_request t))) [
    | inl f ↦ rw (e, f, grown) (refl, refl, refl, refl, refl)
    | inr f ↦ rw (e, f, grown) (refl, refl, refl, refl, refl)
  ]
]

pub insert_table-grown :
    (env : ExpandEnv) (t : HandleTable) (fs : List ℕ)
    → ((u : HandleTable) → env.race_level1 u ≡ u)
    → Wf t fs
    → t.cur < t.max
    → insert_table env (level1_request t) t ≡ link_table (grown t)
unfolding insert_table grown
insert_table-grown env t fs quiet v room =
    let free : ltb t.cur t.max ≡ true = ground (arith, room) in
    elim (level1_request_lem t fs v room) [
      | inl (zero_size, place) ↦
          let b : ltb (t.cur / 2048) t.c_level1 ≡ true = ground (arith, place) in
          rw (zero_size, b, free, insert_table, grown) refl
      | inr (sized, larger, place) ↦
          let b : ltb (t.cur / 2048) (level1_request t) ≡ true = ground (arith, place) in
          rw
            (
              sized,
              larger,
              quiet (record t { c_level1 = level1_request t }),
              b,
              free,
              insert_table,
              grown,
            )
            refl
    ]

-- The expansion keeps the used entries, and its free list is the new table.
pub expanded :
    (t : HandleTable)
    → Wf t []
    → t.cur < t.max
    → Wf (link_table (grown t)) (fresh_indices (grown t).cur)
      × ((link_table (grown t)).base ≡ t.base)
      × ((k : ℕ)
          → Used t k
          → (k < (link_table (grown t)).cur) × ((link_table (grown t)).cells k ≡ t.cells k))
expanded t v room =
    let g = grown t in
    let (w, place) = grown-Wf t [] v room in
    let (cells, cur, max, base, tail) = grown_same t in
    let empty : (g.free_tail == nil_index) ≡ true = ground (arith, w.chain) in
    (
      link_table-Wf g [] w (omega (arith, cur, max, room)) (omega (arith, place, cur)),
      rw (link_table-empty g empty) base,
      rw (link_table-empty g empty) (λ k u.
          let below : ltb k g.cur ≡ true = ground (arith, u, cur) in
          (omega (arith, u.0, cur), rw below (ap (λ f. f k) cells))),
    )
