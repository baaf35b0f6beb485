-- ===== src/Uuid/Order.antt =====
-- RTUuidCompare of generic/uuid-generic.c orders UUIDs as 128-bit numbers.
use virtualbox_drv.Common.{
  ℕ, ◌+◌, ◌*◌, ◌^◌, ◌<◌, ◌≡◌, ◌⊎◌, refl, true, false, not, some, arith, ltb, ◌==◌, if◌then◌else◌,
  Bool-cases, inl, inr, sym, ap, ◌∙◌, none, ==_iff,
}
use virtualbox_drv.Uuid.{
  Uuid, Memory, Comparison, equal, order, compare_values, is_null, uuid_compare,
}
use virtualbox_drv.Uuid.RoundTrip.{IsRanged}

-- The comparison of two numbers.
abbrev pub compare_numbers : ℕ → ℕ → Comparison
compare_numbers a b = if not (a == b) then order a b else equal

below : (m a b x y : ℕ) → x < m → a < b → a * m + x < b * m + y
below m a b x y h l = grind arith

shifted : (c x y : ℕ) → compare_numbers (c + x) (c + y) ≡ compare_numbers x y
shifted c x y = ground arith

-- A digit in front of a number below `m`: the comparison is lexicographic.
lexicographic :
    (m a b x y : ℕ)
    → x < m
    → y < m
    → compare_numbers (a * m + x) (b * m + y)
      ≡ (if not (a == b) then order a b else compare_numbers x y)
lexicographic m a b x y h k = elim (Bool-cases (a == b)) [
  | inl same ↦
      let e : a ≡ b = ground (arith, same) in
      rw same (ap (λ (c : ℕ). compare_numbers (c * m + x) (b * m + y)) e ∙ shifted (b * m) x y)
  | inr apart ↦ elim (Bool-cases (ltb a b)) [
    | inl less_than ↦ ground (arith, apart, less_than, below m a b x y h)
    | inr more ↦ ground (arith, apart, more, below m b a y x k)
  ]
]

-- A UUID as a number, the fields from the highest digits to the lowest.
abbrev pub from_node5 : Uuid → ℕ
from_node5 u = u.node5

abbrev pub from_node4 : Uuid → ℕ
from_node4 u = u.node4 * 2 ^ 8 + from_node5 u

abbrev pub from_node3 : Uuid → ℕ
from_node3 u = u.node3 * 2 ^ 16 + from_node4 u

abbrev pub from_node2 : Uuid → ℕ
from_node2 u = u.node2 * 2 ^ 24 + from_node3 u

abbrev pub from_node1 : Uuid → ℕ
from_node1 u = u.node1 * 2 ^ 32 + from_node2 u

abbrev pub from_node0 : Uuid → ℕ
from_node0 u = u.node0 * 2 ^ 40 + from_node1 u

abbrev pub from_clock_low : Uuid → ℕ
from_clock_low u = u.clock_low * 2 ^ 48 + from_node0 u

abbrev pub from_clock_hi : Uuid → ℕ
from_clock_hi u = u.clock_hi * 2 ^ 56 + from_clock_low u

abbrev pub from_time_hi : Uuid → ℕ
from_time_hi u = u.time_hi * 2 ^ 64 + from_clock_hi u

abbrev pub from_time_mid : Uuid → ℕ
from_time_mid u = u.time_mid * 2 ^ 80 + from_time_hi u

abbrev pub key : Uuid → ℕ
key u = u.time_low * 2 ^ 96 + from_time_mid u

module _ (u : Uuid) (r : IsRanged u) where
  node4_bound : from_node4 u < 2 ^ 16
  node4_bound = omega (arith, r.node4_lt, r.node5_lt)

  node3_bound : from_node3 u < 2 ^ 24
  node3_bound = omega (arith, r.node3_lt, node4_bound)

  node2_bound : from_node2 u < 2 ^ 32
  node2_bound = omega (arith, r.node2_lt, node3_bound)

  node1_bound : from_node1 u < 2 ^ 40
  node1_bound = omega (arith, r.node1_lt, node2_bound)

  node0_bound : from_node0 u < 2 ^ 48
  node0_bound = omega (arith, r.node0_lt, node1_bound)

  clock_low_bound : from_clock_low u < 2 ^ 56
  clock_low_bound = omega (arith, r.clock_low_lt, node0_bound)

  clock_hi_bound : from_clock_hi u < 2 ^ 64
  clock_hi_bound = omega (arith, r.clock_hi_lt, clock_low_bound)

  time_hi_bound : from_time_hi u < 2 ^ 80
  time_hi_bound = omega (arith, r.time_hi_lt, clock_hi_bound)

  time_mid_bound : from_time_mid u < 2 ^ 96
  time_mid_bound = omega (arith, r.time_mid_lt, time_hi_bound)

module _ (u v : Uuid) (r : IsRanged u) (q : IsRanged v) where
  field :
      (a b m : ℕ) {x y : ℕ} {c : Comparison}
      → x < m
      → y < m
      → compare_numbers x y ≡ c
      → compare_numbers (a * m + x) (b * m + y) ≡ (if not (a == b) then order a b else c)
  field a b m {x} {y} h k e =
      lexicographic m a b x y h k ∙ ap (λ c. if not (a == b) then order a b else c) e

  -- RTUuidCompare compares these numbers.
  pub compare_values-key : compare_values u v ≡ compare_numbers (key u) (key v)
  unfolding compare_values
  compare_values-key = sym (
      field u.time_low v.time_low (2 ^ 96) (time_mid_bound u r) (time_mid_bound v q) (
        field u.time_mid v.time_mid (2 ^ 80) (time_hi_bound u r) (time_hi_bound v q) (
          field u.time_hi v.time_hi (2 ^ 64) (clock_hi_bound u r) (clock_hi_bound v q) (
            field u.clock_hi v.clock_hi (2 ^ 56) (clock_low_bound u r) (clock_low_bound v q) (
              field u.clock_low v.clock_low (2 ^ 48) (node0_bound u r) (node0_bound v q) (
                field u.node0 v.node0 (2 ^ 40) (node1_bound u r) (node1_bound v q) (
                  field u.node1 v.node1 (2 ^ 32) (node2_bound u r) (node2_bound v q) (
                    field u.node2 v.node2 (2 ^ 24) (node3_bound u r) (node3_bound v q) (
                      field u.node3 v.node3 (2 ^ 16) (node4_bound u r) (node4_bound v q)
                        (field u.node4 v.node4 (2 ^ 8) r.node5_lt q.node5_lt refl))))))))))

key-zero : (u : Uuid) → is_null (some u) ≡ (key u == 0)
key-zero u = ground arith

key-equal : (x : ℕ) → compare_numbers x x ≡ equal
key-equal x = ground arith

-- A valid pointer to a UUID, or NULL.
abbrev pub Points : Memory → (p : ℕ) → Type 0
Points mem p = (p ≡ 0) ⊎ ((u : Uuid) × (mem p ≡ some u) × IsRanged u)

-- The number behind a pointer, 0 for NULL.
abbrev pub key_at : Memory → (p : ℕ) → ℕ
key_at mem p = elim (mem p) [ none ↦ 0 | some u ↦ key u ]

apart_Points :
    (mem : Memory) (p q : ℕ)
    → mem 0 ≡ none
    → (p == q) ≡ false
    → Points mem p
    → Points mem q
    → uuid_compare mem p q ≡ compare_numbers (key_at mem p) (key_at mem q)
unfolding uuid_compare
apart_Points mem p q z apart (inl p0) (inl q0) = absurd (ground (arith, apart, p0, q0))
apart_Points mem p q z apart (inl p0) (inr (v, ev, rv)) =
    let at_p : mem p ≡ none = ap mem p0 ∙ z in
    let hit : (p == 0) ≡ true = ground (arith, p0) in
    rw (apart, hit, at_p, ev, uuid_compare, key_at) (ground (arith, key-zero v))
apart_Points mem p q z apart (inr (u, eu, ru)) (inl q0) =
    let at_q : mem q ≡ none = ap mem q0 ∙ z in
    let hit : (q == 0) ≡ true = ground (arith, q0) in
    let miss : (p == 0) ≡ false = ground (arith, apart, q0) in
    rw (apart, hit, miss, at_q, eu, uuid_compare, key_at) (ground (arith, key-zero u))
apart_Points mem p q z apart (inr (u, eu, ru)) (inr (v, ev, rv)) = elim (Bool-cases (p == 0)) [
  | inl hit ↦ absurd (cc (sym eu ∙ ap mem ((==_iff p 0).0 hit) ∙ z))
  | inr miss ↦ elim (Bool-cases (q == 0)) [
    | inl hit ↦ absurd (cc (sym ev ∙ ap mem ((==_iff q 0).0 hit) ∙ z))
    | inr miss_q ↦
        rw (apart, miss, miss_q, eu, ev, uuid_compare, key_at) (compare_values-key u v ru rv)
  ]
]

-- RTUuidCompare compares the numbers behind its pointers, where NULL counts as the null UUID.
pub uuid_compare-key :
    (mem : Memory) (p q : ℕ)
    → mem 0 ≡ none
    → Points mem p
    → Points mem q
    → uuid_compare mem p q ≡ compare_numbers (key_at mem p) (key_at mem q)
unfolding uuid_compare
uuid_compare-key mem p q z hp hq = elim (Bool-cases (p == q)) [
  | inl same ↦
      rw (same, uuid_compare)
        (sym (
          ap (λ x. compare_numbers (key_at mem p) (key_at mem x)) (sym ((==_iff p q).0 same))
          ∙ key-equal (key_at mem p)))
  | inr apart ↦ apart_Points mem p q z apart hp hq
]
