-- ===== src/Uuid/RoundTrip.antt =====
-- Writing and reading UUIDs in generic/uuid-generic.c are inverse to one another.
use virtualbox_drv.Common.{◌^◌, ◌<◌, ◌≡◌, refl, true, some, success}
use virtualbox_drv.Uuid.{Uuid}
use virtualbox_drv.Uuid.Text.{to_text, text_at, is_uuid_text, parse_text, from_string}
use virtualbox_drv.Uuid.Digits.{
  are_xdigits2-hex_digit, number2-hex_digit, are_xdigits4-hex_digit, number4-hex_digit,
  are_xdigits8-hex_digit, number8-hex_digit,
}

-- The fields are numbers of their width.
pub record IsRanged (u : Uuid) : Type 0 where
  pub time_low_lt : u.time_low < 2 ^ 32
  pub time_mid_lt : u.time_mid < 2 ^ 16
  pub time_hi_lt : u.time_hi < 2 ^ 16
  pub clock_hi_lt : u.clock_hi < 2 ^ 8
  pub clock_low_lt : u.clock_low < 2 ^ 8
  pub node0_lt : u.node0 < 2 ^ 8
  pub node1_lt : u.node1 < 2 ^ 8
  pub node2_lt : u.node2 < 2 ^ 8
  pub node3_lt : u.node3 < 2 ^ 8
  pub node4_lt : u.node4 < 2 ^ 8
  pub node5_lt : u.node5 < 2 ^ 8

module _ (u : Uuid) (r : IsRanged u) where
  written-IsUuidText : is_uuid_text (text_at (to_text u)) ≡ true
  unfolding is_uuid_text to_text
  written-IsUuidText =
      rw
        (
          are_xdigits8-hex_digit u.time_low r.time_low_lt,
          are_xdigits4-hex_digit u.time_mid r.time_mid_lt,
          are_xdigits4-hex_digit u.time_hi r.time_hi_lt,
          are_xdigits2-hex_digit u.clock_hi r.clock_hi_lt,
          are_xdigits2-hex_digit u.clock_low r.clock_low_lt,
          are_xdigits2-hex_digit u.node0 r.node0_lt,
          are_xdigits2-hex_digit u.node1 r.node1_lt,
          are_xdigits2-hex_digit u.node2 r.node2_lt,
          are_xdigits2-hex_digit u.node3 r.node3_lt,
          are_xdigits2-hex_digit u.node4 r.node4_lt,
          are_xdigits2-hex_digit u.node5 r.node5_lt,
        )
        refl

  parse_text-to_text : parse_text (text_at (to_text u)) ≡ u
  unfolding parse_text to_text
  parse_text-to_text =
      rw
        (
          number8-hex_digit u.time_low r.time_low_lt,
          number4-hex_digit u.time_mid r.time_mid_lt,
          number4-hex_digit u.time_hi r.time_hi_lt,
          number2-hex_digit u.clock_hi r.clock_hi_lt,
          number2-hex_digit u.clock_low r.clock_low_lt,
          number2-hex_digit u.node0 r.node0_lt,
          number2-hex_digit u.node1 r.node1_lt,
          number2-hex_digit u.node2 r.node2_lt,
          number2-hex_digit u.node3 r.node3_lt,
          number2-hex_digit u.node4 r.node4_lt,
          number2-hex_digit u.node5 r.node5_lt,
        )
        refl

  -- What RTUuidToStr writes is read back by RTUuidFromStr as the same UUID.
  pub from_string-to_text : from_string true (some (text_at (to_text u))) ≡ (success, some u)
  from_string-to_text = rw (written-IsUuidText, parse_text-to_text) refl
