-- ===== src/Uuid.antt =====
-- The UUIDs of generic/uuid-generic.c: the values, and how they are compared.
pub mod Text
pub mod Digits
pub mod RoundTrip
pub mod Order
pub mod Reading
pub mod Strings
mod Tests
use virtualbox_drv.Common.{
  ℕ, zero, suc, ◌+◌, ◌-◌, ◌*◌, ◌/◌, ◌%◌, ◌^◌, Bool, true, false, not, ◌&&◌, Option, none, some,
  List, [], ◌∷◌, Status, success, invalid_parameter, invalid_uuid_format, rt_success, ltb, leb,
  ◌==◌, if◌then◌else◌,
}

-- RTUUID::Gen.
pub record Uuid : Type 0 where
  pub time_low : ℕ
  pub time_mid : ℕ
  pub time_hi : ℕ
  pub clock_hi : ℕ
  pub clock_low : ℕ
  pub node0 : ℕ
  pub node1 : ℕ
  pub node2 : ℕ
  pub node3 : ℕ
  pub node4 : ℕ
  pub node5 : ℕ

-- RTUUID::au64, on a little endian host.
abbrev pub au64_0 : Uuid → ℕ
au64_0 u = u.time_low + u.time_mid * 2 ^ 32 + u.time_hi * 2 ^ 48

abbrev pub au64_1 : Uuid → ℕ
au64_1 u =
    u.clock_hi
    + u.clock_low * 2 ^ 8
    + u.node0 * 2 ^ 16
    + u.node1 * 2 ^ 24
    + u.node2 * 2 ^ 32
    + u.node3 * 2 ^ 40
    + u.node4 * 2 ^ 48
    + u.node5 * 2 ^ 56

-- A memory of UUIDs: `none` at what is not a valid pointer, such as 0 for NULL.
abbrev pub Memory : Type 0
Memory = ℕ → Option Uuid

-- The value that RTUuidClear writes.
abbrev pub null_uuid : Uuid
null_uuid = record {
  time_low = 0;
  time_mid = 0;
  time_hi = 0;
  clock_hi = 0;
  clock_low = 0;
  node0 = 0;
  node1 = 0;
  node2 = 0;
  node3 = 0;
  node4 = 0;
  node5 = 0;
}

-- RTUuidClear: what is stored, and the status.
pub uuid_clear : Memory → (p : ℕ) → Memory × Status
uuid_clear mem p = elim (mem p) [
  | none ↦ (mem, invalid_parameter)
  | some u ↦ ((λ q. if p == q then some null_uuid else mem q), success)
]

-- RTUuidIsNull.
abbrev pub is_null : Option Uuid → Bool
is_null none = true
is_null (some u) = au64_0 u == 0 && au64_1 u == 0

-- The results -1, 0 and 1.
pub data Comparison : Type 0 where
  less equal greater : Comparison

-- The numbers of one field.
abbrev pub order : ℕ → ℕ → Comparison
order a b = if ltb a b then less else greater

-- RTUuidCompare, on the values.
unfoldable pub compare_values : Uuid → Uuid → Comparison
compare_values u v =
    if not (u.time_low == v.time_low)
    then order u.time_low v.time_low
    else if not (u.time_mid == v.time_mid)
    then order u.time_mid v.time_mid
    else if not (u.time_hi == v.time_hi)
    then order u.time_hi v.time_hi
    else if not (u.clock_hi == v.clock_hi)
    then order u.clock_hi v.clock_hi
    else if not (u.clock_low == v.clock_low)
    then order u.clock_low v.clock_low
    else if not (u.node0 == v.node0)
    then order u.node0 v.node0
    else if not (u.node1 == v.node1)
    then order u.node1 v.node1
    else if not (u.node2 == v.node2)
    then order u.node2 v.node2
    else if not (u.node3 == v.node3)
    then order u.node3 v.node3
    else if not (u.node4 == v.node4)
    then order u.node4 v.node4
    else if not (u.node5 == v.node5)
    then order u.node5 v.node5
    else equal

-- RTUuidCompare, on the pointers.
unfoldable pub uuid_compare : Memory → (p q : ℕ) → Comparison
uuid_compare mem p q =
    if p == q
    then equal
    else if p == 0
    then (if is_null (mem q) then equal else less)
    else if q == 0
    then (if is_null (mem p) then equal else greater)
    else (elim (mem p) [
      | none ↦ less
      | some u ↦ elim (mem q) [ none ↦ greater | some v ↦ compare_values u v ]
    ])
