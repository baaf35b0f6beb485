-- ===== src/Uuid/Digits.antt =====
-- Hexadecimal digits of generic/uuid-generic.c, one by one and two, four and eight at a time.
use virtualbox_drv.Common.{ℕ, ◌/◌, ◌%◌, ◌^◌, ◌<◌, ◌≡◌, refl, true, arith}
use virtualbox_drv.Uuid.Text.{
  digit_value, is_xdigit, hex_digit, are_xdigits2, number2, are_xdigits4, number4, are_xdigits8,
  number8,
}

pub digit_value-hex_digit : (d : ℕ) → d < 16 → digit_value (hex_digit d) ≡ d
unfolding digit_value hex_digit
digit_value-hex_digit d h = ground arith

is_xdigit-hex_digit : (d : ℕ) → d < 16 → is_xdigit (hex_digit d) ≡ true
is_xdigit-hex_digit d h = rw (digit_value-hex_digit d h) (ground arith)

-- The two digits of a byte.
module _ (x : ℕ) (h : x < 2 ^ 8) where
  pub are_xdigits2-hex_digit : are_xdigits2 (hex_digit (x / 2 ^ 4)) (hex_digit (x % 16)) ≡ true
  unfolding are_xdigits2
  are_xdigits2-hex_digit =
      rw (is_xdigit-hex_digit (x / 2 ^ 4) (omega arith), is_xdigit-hex_digit (x % 16) (omega arith))
        refl

  pub number2-hex_digit : number2 (hex_digit (x / 2 ^ 4)) (hex_digit (x % 16)) ≡ x
  unfolding number2
  number2-hex_digit =
      rw
        (
          digit_value-hex_digit (x / 2 ^ 4) (omega arith),
          digit_value-hex_digit (x % 16) (omega arith),
        )
        (omega arith)

-- The four digits of a 16-bit number.
module _ (x : ℕ) (h : x < 2 ^ 16) where
  pub are_xdigits4-hex_digit :
      are_xdigits4
        (hex_digit (x / 2 ^ 12))
        (hex_digit (x / 2 ^ 8 % 16))
        (hex_digit (x / 2 ^ 4 % 16))
        (hex_digit (x % 16))
      ≡ true
  unfolding are_xdigits4
  are_xdigits4-hex_digit =
      rw
        (
          is_xdigit-hex_digit (x / 2 ^ 12) (omega arith),
          is_xdigit-hex_digit (x / 2 ^ 8 % 16) (omega arith),
          is_xdigit-hex_digit (x / 2 ^ 4 % 16) (omega arith),
          is_xdigit-hex_digit (x % 16) (omega arith),
        )
        refl

  pub number4-hex_digit :
      number4
        (hex_digit (x / 2 ^ 12))
        (hex_digit (x / 2 ^ 8 % 16))
        (hex_digit (x / 2 ^ 4 % 16))
        (hex_digit (x % 16))
      ≡ x
  unfolding number4
  number4-hex_digit =
      rw
        (
          digit_value-hex_digit (x / 2 ^ 12) (omega arith),
          digit_value-hex_digit (x / 2 ^ 8 % 16) (omega arith),
          digit_value-hex_digit (x / 2 ^ 4 % 16) (omega arith),
          digit_value-hex_digit (x % 16) (omega arith),
        )
        (omega arith)

-- The eight digits of a 32-bit number.
module _ (x : ℕ) (h : x < 2 ^ 32) where
  pub are_xdigits8-hex_digit :
      are_xdigits8
        (hex_digit (x / 2 ^ 28))
        (hex_digit (x / 2 ^ 24 % 16))
        (hex_digit (x / 2 ^ 20 % 16))
        (hex_digit (x / 2 ^ 16 % 16))
        (hex_digit (x / 2 ^ 12 % 16))
        (hex_digit (x / 2 ^ 8 % 16))
        (hex_digit (x / 2 ^ 4 % 16))
        (hex_digit (x % 16))
      ≡ true
  unfolding are_xdigits8
  are_xdigits8-hex_digit =
      rw
        (
          is_xdigit-hex_digit (x / 2 ^ 28) (omega arith),
          is_xdigit-hex_digit (x / 2 ^ 24 % 16) (omega arith),
          is_xdigit-hex_digit (x / 2 ^ 20 % 16) (omega arith),
          is_xdigit-hex_digit (x / 2 ^ 16 % 16) (omega arith),
          is_xdigit-hex_digit (x / 2 ^ 12 % 16) (omega arith),
          is_xdigit-hex_digit (x / 2 ^ 8 % 16) (omega arith),
          is_xdigit-hex_digit (x / 2 ^ 4 % 16) (omega arith),
          is_xdigit-hex_digit (x % 16) (omega arith),
        )
        refl

  pub number8-hex_digit :
      number8
        (hex_digit (x / 2 ^ 28))
        (hex_digit (x / 2 ^ 24 % 16))
        (hex_digit (x / 2 ^ 20 % 16))
        (hex_digit (x / 2 ^ 16 % 16))
        (hex_digit (x / 2 ^ 12 % 16))
        (hex_digit (x / 2 ^ 8 % 16))
        (hex_digit (x / 2 ^ 4 % 16))
        (hex_digit (x % 16))
      ≡ x
  unfolding number8
  number8-hex_digit =
      rw
        (
          digit_value-hex_digit (x / 2 ^ 28) (omega arith),
          digit_value-hex_digit (x / 2 ^ 24 % 16) (omega arith),
          digit_value-hex_digit (x / 2 ^ 20 % 16) (omega arith),
          digit_value-hex_digit (x / 2 ^ 16 % 16) (omega arith),
          digit_value-hex_digit (x / 2 ^ 12 % 16) (omega arith),
          digit_value-hex_digit (x / 2 ^ 8 % 16) (omega arith),
          digit_value-hex_digit (x / 2 ^ 4 % 16) (omega arith),
          digit_value-hex_digit (x % 16) (omega arith),
        )
        (omega arith)
