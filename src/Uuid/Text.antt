-- ===== src/Uuid/Text.antt =====
-- UUIDs as texts, of generic/uuid-generic.c. A text is what a pointer reads at an index, of bytes or
-- of 16-bit characters.
use virtualbox_drv.Common.{
  ℕ, zero, suc, ◌+◌, ◌-◌, ◌*◌, ◌/◌, ◌%◌, ◌^◌, Bool, true, not, ◌&&◌, ◌||◌, Option, none, some, List,
  [], ◌∷◌, Status, success, invalid_parameter, invalid_uuid_format, ltb, leb, ◌==◌, if◌then◌else◌,
}
use virtualbox_drv.Uuid.{Uuid, Comparison, less, greater, compare_values}

-- g_au8Digits.
unfoldable pub digit_value : ℕ → ℕ
digit_value c =
    let b = c % 256 in
    if leb 0x30 b && leb b 0x39
    then b - 0x30
    else if leb 0x41 b && leb b 0x46
    then b - 0x37
    else if leb 0x61 b && leb b 0x66
    then b - 0x57
    else 0xff

-- MY_ISXDIGIT.
abbrev pub is_xdigit : ℕ → Bool
is_xdigit c = not (digit_value c == 0xff)

-- g_achDigits, at the indices that are used.
unfoldable pub hex_digit : ℕ → ℕ
hex_digit d = if ltb d 10 then 0x30 + d else 0x57 + d

abbrev pub dash : ℕ
dash = 0x2d

-- RTUUID_STR_LENGTH.
abbrev pub str_length : ℕ
str_length = 37

-- The 37 characters of RTUuidToStr and RTUuidToUtf16.
unfoldable pub to_text : Uuid → List ℕ
to_text u =
    hex_digit (u.time_low / 2 ^ 28)
    ∷ hex_digit (u.time_low / 2 ^ 24 % 16)
    ∷ hex_digit (u.time_low / 2 ^ 20 % 16)
    ∷ hex_digit (u.time_low / 2 ^ 16 % 16)
    ∷ hex_digit (u.time_low / 2 ^ 12 % 16)
    ∷ hex_digit (u.time_low / 2 ^ 8 % 16)
    ∷ hex_digit (u.time_low / 2 ^ 4 % 16)
    ∷ hex_digit (u.time_low % 16)
    ∷ dash
    ∷ hex_digit (u.time_mid / 2 ^ 12)
    ∷ hex_digit (u.time_mid / 2 ^ 8 % 16)
    ∷ hex_digit (u.time_mid / 2 ^ 4 % 16)
    ∷ hex_digit (u.time_mid % 16)
    ∷ dash
    ∷ hex_digit (u.time_hi / 2 ^ 12)
    ∷ hex_digit (u.time_hi / 2 ^ 8 % 16)
    ∷ hex_digit (u.time_hi / 2 ^ 4 % 16)
    ∷ hex_digit (u.time_hi % 16)
    ∷ dash
    ∷ hex_digit (u.clock_hi / 2 ^ 4)
    ∷ hex_digit (u.clock_hi % 16)
    ∷ hex_digit (u.clock_low / 2 ^ 4)
    ∷ hex_digit (u.clock_low % 16)
    ∷ dash
    ∷ hex_digit (u.node0 / 2 ^ 4)
    ∷ hex_digit (u.node0 % 16)
    ∷ hex_digit (u.node1 / 2 ^ 4)
    ∷ hex_digit (u.node1 % 16)
    ∷ hex_digit (u.node2 / 2 ^ 4)
    ∷ hex_digit (u.node2 % 16)
    ∷ hex_digit (u.node3 / 2 ^ 4)
    ∷ hex_digit (u.node3 % 16)
    ∷ hex_digit (u.node4 / 2 ^ 4)
    ∷ hex_digit (u.node4 % 16)
    ∷ hex_digit (u.node5 / 2 ^ 4)
    ∷ hex_digit (u.node5 % 16)
    ∷ 0
    ∷ []

-- RTUuidToStr: the status and what is written.
abbrev pub to_string : Option Uuid → (valid_text : Bool) → (size : ℕ) → Status × Option (List ℕ)
to_string none valid_text size = (invalid_parameter, none)
to_string (some u) valid_text size =
    if not valid_text
    then (invalid_parameter, none)
    else if not (leb str_length size)
    then (invalid_parameter, none)
    else (success, some (to_text u))

-- RTUuidToUtf16.
abbrev pub to_utf16 : Option Uuid → (valid_text : Bool) → (size : ℕ) → Status × Option (List ℕ)
to_utf16 u valid_text size = to_string u valid_text size

-- The checks and the numbers of two, four and eight digits. The digits lie in disjoint bits, so that
-- `|` is a sum.
unfoldable pub are_xdigits2 : (a b : ℕ) → Bool
are_xdigits2 a b = is_xdigit a && is_xdigit b

unfoldable pub number2 : (a b : ℕ) → ℕ
number2 a b = digit_value a * 2 ^ 4 + digit_value b

unfoldable pub are_xdigits4 : (a b c d : ℕ) → Bool
are_xdigits4 a b c d = is_xdigit a && is_xdigit b && is_xdigit c && is_xdigit d

unfoldable pub number4 : (a b c d : ℕ) → ℕ
number4 a b c d =
    digit_value a * 2 ^ 12 + digit_value b * 2 ^ 8 + digit_value c * 2 ^ 4 + digit_value d

unfoldable pub are_xdigits8 : (a b c d e f g h : ℕ) → Bool
are_xdigits8 a b c d e f g h =
    is_xdigit a
    && is_xdigit b
    && is_xdigit c
    && is_xdigit d
    && is_xdigit e
    && is_xdigit f
    && is_xdigit g
    && is_xdigit h

unfoldable pub number8 : (a b c d e f g h : ℕ) → ℕ
number8 a b c d e f g h =
    digit_value a * 2 ^ 28
    + digit_value b * 2 ^ 24
    + digit_value c * 2 ^ 20
    + digit_value d * 2 ^ 16
    + digit_value e * 2 ^ 12
    + digit_value f * 2 ^ 8
    + digit_value g * 2 ^ 4
    + digit_value h

-- The checks of RTUuidFromStr and RTUuidFromUtf16.
unfoldable pub is_uuid_text : (ℕ → ℕ) → Bool
is_uuid_text s =
    are_xdigits8 (s 0) (s 1) (s 2) (s 3) (s 4) (s 5) (s 6) (s 7)
    && s 8 == dash
    && are_xdigits4 (s 9) (s 10) (s 11) (s 12)
    && s 13 == dash
    && are_xdigits4 (s 14) (s 15) (s 16) (s 17)
    && s 18 == dash
    && are_xdigits2 (s 19) (s 20)
    && are_xdigits2 (s 21) (s 22)
    && s 23 == dash
    && are_xdigits2 (s 24) (s 25)
    && are_xdigits2 (s 26) (s 27)
    && are_xdigits2 (s 28) (s 29)
    && are_xdigits2 (s 30) (s 31)
    && are_xdigits2 (s 32) (s 33)
    && are_xdigits2 (s 34) (s 35)
    && s 36 == 0

unfoldable pub parse_text : (ℕ → ℕ) → Uuid
parse_text s = record {
  time_low = number8 (s 0) (s 1) (s 2) (s 3) (s 4) (s 5) (s 6) (s 7);
  time_mid = number4 (s 9) (s 10) (s 11) (s 12);
  time_hi = number4 (s 14) (s 15) (s 16) (s 17);
  clock_hi = number2 (s 19) (s 20);
  clock_low = number2 (s 21) (s 22);
  node0 = number2 (s 24) (s 25);
  node1 = number2 (s 26) (s 27);
  node2 = number2 (s 28) (s 29);
  node3 = number2 (s 30) (s 31);
  node4 = number2 (s 32) (s 33);
  node5 = number2 (s 34) (s 35);
}

-- RTUuidFromStr: the status and what is stored; `none` for a text is an invalid
-- pointer.
abbrev pub from_string : (valid_uuid : Bool) → Option (ℕ → ℕ) → Status × Option Uuid
from_string valid_uuid none = (invalid_parameter, none)
from_string valid_uuid (some s) =
    if not valid_uuid
    then (invalid_parameter, none)
    else if not (is_uuid_text s)
    then (invalid_uuid_format, none)
    else (success, some (parse_text s))

-- The positions of the dashes and of the end.
abbrev pub is_separator : ℕ → Bool
is_separator i = i == 8 || i == 13 || i == 18 || i == 23 || i == 36

-- What RTUuidFromUtf16 checks of each digit besides: that its high byte is 0.
unfoldable pub have_no_high_bytes : (ℕ → ℕ) → (i n : ℕ) → Bool
have_no_high_bytes s i zero = true
have_no_high_bytes s i (suc n) =
    (is_separator i || s i / 256 % 256 == 0) && have_no_high_bytes s (i + 1) n

-- RTUuidFromUtf16.
abbrev pub from_utf16 : (valid_uuid : Bool) → Option (ℕ → ℕ) → Status × Option Uuid
from_utf16 valid_uuid none = (invalid_parameter, none)
from_utf16 valid_uuid (some s) =
    if not valid_uuid
    then (invalid_parameter, none)
    else if not (have_no_high_bytes s 0 36 && is_uuid_text s)
    then (invalid_uuid_format, none)
    else (success, some (parse_text s))

-- RTUuidCompareStr.
unfoldable pub uuid_compare_str : Option Uuid → Option (ℕ → ℕ) → Comparison
uuid_compare_str none s = less
uuid_compare_str (some u) none = greater
uuid_compare_str (some u) (some s) = elim ((from_string true (some s)).1) [
  | none ↦ greater
  | some v ↦ compare_values u v
]

-- RTUuidCompare2Strs.
unfoldable pub uuid_compare_2strs : (s t : Option (ℕ → ℕ)) → Comparison
uuid_compare_2strs none t = less
uuid_compare_2strs (some s) none = greater
uuid_compare_2strs (some s) (some t) = elim ((from_string true (some s)).1) [
  | none ↦ less
  | some u ↦ elim ((from_string true (some t)).1) [ none ↦ greater | some v ↦ compare_values u v ]
]

-- What is read in a buffer of these characters.
abbrev pub text_at : List ℕ → (i : ℕ) → ℕ
text_at [] i = 0
text_at (c ∷ cs) zero = c
text_at (c ∷ cs) (suc i) = text_at cs i
