-- ===== src/Uuid/Tests.antt =====
-- Runs of the UUID functions of generic/uuid-generic.c, and the theorems about them at a concrete
-- UUID, 01234567-89ab-cdef-0011-2233445566ff.
use virtualbox_drv.Common.{
  ℕ, zero, suc, [], ◌∷◌, ◌<◌, ◌≡◌, ◌==◌, true, some, none, List, refl, arith, success,
  if◌then◌else◌,
}
use virtualbox_drv.Uuid.{Uuid, Memory, uuid_compare, less}
use virtualbox_drv.Uuid.Reading.{lower, characters, to_text-from_string}
use virtualbox_drv.Uuid.RoundTrip.{IsRanged, from_string-to_text}
use virtualbox_drv.Uuid.Text.{
  to_text, text_at, from_string, is_uuid_text, parse_text, are_xdigits8, are_xdigits4, are_xdigits2,
  number8, number4, number2, digit_value,
}

abbrev sample : Uuid
sample = record {
  time_low = 0x01234567;
  time_mid = 0x89ab;
  time_hi = 0xcdef;
  clock_hi = 0;
  clock_low = 0x11;
  node0 = 0x22;
  node1 = 0x33;
  node2 = 0x44;
  node3 = 0x55;
  node4 = 0x66;
  node5 = 0xff;
}

sample-IsRanged : IsRanged sample
sample-IsRanged = omega arith

abbrev other : Uuid
other = record sample { node5 = 0xfe }

other-IsRanged : IsRanged other
other-IsRanged = omega arith

-- The sample at 1, the other at 2, NULL and nothing else.
abbrev two_uuids : Memory
two_uuids p = if p == 1 then some sample else if p == 2 then some other else none

from_string-to_text_example :
    from_string true (some (text_at (to_text sample))) ≡ (success, some sample)
from_string-to_text_example = from_string-to_text sample sample-IsRanged

-- NULL is below every UUID but the null UUID.
null_below : uuid_compare two_uuids 0 1 ≡ less
unfolding uuid_compare
null_below = refl

-- The sample in upper case, with its terminator.
abbrev shouted : List ℕ
shouted =
    b'0' ∷ b'1' ∷ b'2' ∷ b'3' ∷ b'4' ∷ b'5' ∷ b'6' ∷ b'7' ∷ b'-' ∷ b'8' ∷ b'9' ∷ b'A' ∷ b'B' ∷ b'-'
    ∷ b'C' ∷ b'D' ∷ b'E' ∷ b'F' ∷ b'-' ∷ b'0' ∷ b'0' ∷ b'1' ∷ b'1' ∷ b'-' ∷ b'2' ∷ b'2' ∷ b'3'
    ∷ b'3' ∷ b'4' ∷ b'4' ∷ b'5' ∷ b'5' ∷ b'6' ∷ b'6' ∷ b'F' ∷ b'F' ∷ 0 ∷ []

abbrev Bytes : List ℕ → Type 0
Bytes [] = Unit {0}
Bytes (c ∷ cs) = (c < 256) × Bytes cs

text_at-lt : (cs : List ℕ) (i : ℕ) → Bytes cs → text_at cs i < 256
text_at-lt [] i h = omega arith
text_at-lt (c ∷ cs) zero h = h.0
text_at-lt (c ∷ cs) (suc i) h = text_at-lt cs i h.1

to_text-from_string_example : to_text sample ≡ characters (λ i. lower (text_at shouted i)) 0 37
unfolding is_uuid_text parse_text are_xdigits8 are_xdigits4 are_xdigits2 number8 number4 number2
    digit_value
to_text-from_string_example =
    to_text-from_string (text_at shouted) sample (λ i. text_at-lt shouted i (omega arith)) refl
