-- ===== src/Uuid/Reading.antt =====
-- What RTUuidFromStr and RTUuidFromUtf16 of generic/uuid-generic.c accept.
use virtualbox_drv.Common.{
  ℕ, zero, suc, ◌+◌, ◌/◌, ◌%◌, ◌^◌, ◌<◌, ◌≤◌, ◌≡◌, refl, true, false, some, List, [], ◌∷◌, arith,
  leb, ◌==◌, ◌&&◌, if◌then◌else◌, Bool-cases, inl, inr, success, ap, sym, ◌∙◌, subst, ==_iff,
}
use virtualbox_drv.Uuid.{Uuid}
use virtualbox_drv.Uuid.Text.{
  digit_value, is_xdigit, hex_digit, are_xdigits2, number2, are_xdigits4, number4, are_xdigits8,
  number8, to_text, is_uuid_text, parse_text, from_string, from_utf16, is_separator,
  have_no_high_bytes, dash,
}

-- The lower case form of a character.
abbrev pub lower : ℕ → ℕ
lower c = if leb 0x41 c && leb c 0x5a then c + 32 else c

xdigit_lt : (c : ℕ) → is_xdigit c ≡ true → digit_value c < 16
unfolding digit_value
xdigit_lt c h = ground arith

hex_digit-digit_value : (c : ℕ) → c < 256 → is_xdigit c ≡ true → hex_digit (digit_value c) ≡ lower c
unfolding digit_value hex_digit
hex_digit-digit_value c b h = ground arith

-- A digit of a number that was read is the lower case of the character.
digit_back : (c n : ℕ) → c < 256 → is_xdigit c ≡ true → n ≡ digit_value c → hex_digit n ≡ lower c
digit_back c n b h e = rw e (hex_digit-digit_value c b h)

module _ (a b : ℕ) (ka : a < 256) (kb : b < 256) (h : are_xdigits2 a b ≡ true) where
  digits2 : (is_xdigit a ≡ true) × (is_xdigit b ≡ true)
  unfolding are_xdigits2
  digits2 = ground arith

  pub number2-lower :
      (hex_digit (number2 a b / 2 ^ 4) ≡ lower a) × (hex_digit (number2 a b % 16) ≡ lower b)
  unfolding number2
  number2-lower =
      let (ha, hb) = digits2 in
      let la = xdigit_lt a ha in
      let lb = xdigit_lt b hb in
      (digit_back a _ ka ha (omega arith), digit_back b _ kb hb (omega arith))

module _ (a b c d : ℕ) (ka : a < 256) (kb : b < 256) (kc : c < 256) (kd : d < 256)
    (h : are_xdigits4 a b c d ≡ true) where
  digits4 :
      (is_xdigit a ≡ true) × (is_xdigit b ≡ true) × (is_xdigit c ≡ true) × (is_xdigit d ≡ true)
  unfolding are_xdigits4
  digits4 = ground arith

  pub number4-lower :
      (hex_digit (number4 a b c d / 2 ^ 12) ≡ lower a)
      × (hex_digit (number4 a b c d / 2 ^ 8 % 16) ≡ lower b)
      × (hex_digit (number4 a b c d / 2 ^ 4 % 16) ≡ lower c)
      × (hex_digit (number4 a b c d % 16) ≡ lower d)
  unfolding number4
  number4-lower =
      let (ha, hb, hc, hd) = digits4 in
      let la = xdigit_lt a ha in
      let lb = xdigit_lt b hb in
      let lc = xdigit_lt c hc in
      let ld = xdigit_lt d hd in
      (
        digit_back a _ ka ha (omega arith),
        digit_back b _ kb hb (omega arith),
        digit_back c _ kc hc (omega arith),
        digit_back d _ kd hd (omega arith),
      )

module _ (a b c d e f g h : ℕ) (ka : a < 256) (kb : b < 256) (kc : c < 256) (kd : d < 256)
    (ke : e < 256) (kf : f < 256) (kg : g < 256) (kh : h < 256)
    (ok : are_xdigits8 a b c d e f g h ≡ true) where
  digits8 :
      (is_xdigit a ≡ true)
      × (is_xdigit b ≡ true)
      × (is_xdigit c ≡ true)
      × (is_xdigit d ≡ true)
      × (is_xdigit e ≡ true)
      × (is_xdigit f ≡ true)
      × (is_xdigit g ≡ true)
      × (is_xdigit h ≡ true)
  unfolding are_xdigits8
  digits8 = ground arith

  pub number8-lower :
      (hex_digit (number8 a b c d e f g h / 2 ^ 28) ≡ lower a)
      × (hex_digit (number8 a b c d e f g h / 2 ^ 24 % 16) ≡ lower b)
      × (hex_digit (number8 a b c d e f g h / 2 ^ 20 % 16) ≡ lower c)
      × (hex_digit (number8 a b c d e f g h / 2 ^ 16 % 16) ≡ lower d)
      × (hex_digit (number8 a b c d e f g h / 2 ^ 12 % 16) ≡ lower e)
      × (hex_digit (number8 a b c d e f g h / 2 ^ 8 % 16) ≡ lower f)
      × (hex_digit (number8 a b c d e f g h / 2 ^ 4 % 16) ≡ lower g)
      × (hex_digit (number8 a b c d e f g h % 16) ≡ lower h)
  unfolding number8
  number8-lower =
      let (ha, hb, hc, hd, he, hf, hg, hh) = digits8 in
      let la = xdigit_lt a ha in
      let lb = xdigit_lt b hb in
      let lc = xdigit_lt c hc in
      let ld = xdigit_lt d hd in
      let le = xdigit_lt e he in
      let lf = xdigit_lt f hf in
      let lg = xdigit_lt g hg in
      let lh = xdigit_lt h hh in
      (
        digit_back a _ ka ha (omega arith),
        digit_back b _ kb hb (omega arith),
        digit_back c _ kc hc (omega arith),
        digit_back d _ kd hd (omega arith),
        digit_back e _ ke he (omega arith),
        digit_back f _ kf hf (omega arith),
        digit_back g _ kg hg (omega arith),
        digit_back h _ kh hh (omega arith),
      )

-- The characters of a text from `i` on.
abbrev pub characters : (ℕ → ℕ) → (i n : ℕ) → List ℕ
characters s i zero = []
characters s i (suc n) = s i ∷ characters s (i + 1) n

module _ (s : ℕ → ℕ) (ok : is_uuid_text s ≡ true) where
  checks :
      (are_xdigits8 (s 0) (s 1) (s 2) (s 3) (s 4) (s 5) (s 6) (s 7) ≡ true)
      × (s 8 ≡ dash)
      × (are_xdigits4 (s 9) (s 10) (s 11) (s 12) ≡ true)
      × (s 13 ≡ dash)
      × (are_xdigits4 (s 14) (s 15) (s 16) (s 17) ≡ true)
      × (s 18 ≡ dash)
      × (are_xdigits2 (s 19) (s 20) ≡ true)
      × (are_xdigits2 (s 21) (s 22) ≡ true)
      × (s 23 ≡ dash)
      × (are_xdigits2 (s 24) (s 25) ≡ true)
      × (are_xdigits2 (s 26) (s 27) ≡ true)
      × (are_xdigits2 (s 28) (s 29) ≡ true)
      × (are_xdigits2 (s 30) (s 31) ≡ true)
      × (are_xdigits2 (s 32) (s 33) ≡ true)
      × (are_xdigits2 (s 34) (s 35) ≡ true)
      × (s 36 ≡ 0)
  unfolding is_uuid_text
  checks = ground arith

  -- What is written for a UUID that was read is the text, in lower case.
  to_text-parse_text :
      ((i : ℕ) → i < 36 → is_separator i ≡ false → s i < 256)
      → to_text (parse_text s) ≡ characters (λ i. lower (s i)) 0 37
  unfolding to_text parse_text
  to_text-parse_text k =
      rw
        (
          (number8-lower (s 0) (s 1) (s 2) (s 3) (s 4) (s 5) (s 6) (s 7) (k 0 (omega arith) refl)
              (k 1 (omega arith) refl) (k 2 (omega arith) refl) (k 3 (omega arith) refl)
              (k 4 (omega arith) refl) (k 5 (omega arith) refl) (k 6 (omega arith) refl)
              (k 7 (omega arith) refl) checks.0).0,
          (number8-lower (s 0) (s 1) (s 2) (s 3) (s 4) (s 5) (s 6) (s 7) (k 0 (omega arith) refl)
              (k 1 (omega arith) refl) (k 2 (omega arith) refl) (k 3 (omega arith) refl)
              (k 4 (omega arith) refl) (k 5 (omega arith) refl) (k 6 (omega arith) refl)
              (k 7 (omega arith) refl) checks.0).1,
          (number8-lower (s 0) (s 1) (s 2) (s 3) (s 4) (s 5) (s 6) (s 7) (k 0 (omega arith) refl)
              (k 1 (omega arith) refl) (k 2 (omega arith) refl) (k 3 (omega arith) refl)
              (k 4 (omega arith) refl) (k 5 (omega arith) refl) (k 6 (omega arith) refl)
              (k 7 (omega arith) refl) checks.0).2,
          (number8-lower (s 0) (s 1) (s 2) (s 3) (s 4) (s 5) (s 6) (s 7) (k 0 (omega arith) refl)
              (k 1 (omega arith) refl) (k 2 (omega arith) refl) (k 3 (omega arith) refl)
              (k 4 (omega arith) refl) (k 5 (omega arith) refl) (k 6 (omega arith) refl)
              (k 7 (omega arith) refl) checks.0).3,
          (number8-lower (s 0) (s 1) (s 2) (s 3) (s 4) (s 5) (s 6) (s 7) (k 0 (omega arith) refl)
              (k 1 (omega arith) refl) (k 2 (omega arith) refl) (k 3 (omega arith) refl)
              (k 4 (omega arith) refl) (k 5 (omega arith) refl) (k 6 (omega arith) refl)
              (k 7 (omega arith) refl) checks.0).4,
          (number8-lower (s 0) (s 1) (s 2) (s 3) (s 4) (s 5) (s 6) (s 7) (k 0 (omega arith) refl)
              (k 1 (omega arith) refl) (k 2 (omega arith) refl) (k 3 (omega arith) refl)
              (k 4 (omega arith) refl) (k 5 (omega arith) refl) (k 6 (omega arith) refl)
              (k 7 (omega arith) refl) checks.0).5,
          (number8-lower (s 0) (s 1) (s 2) (s 3) (s 4) (s 5) (s 6) (s 7) (k 0 (omega arith) refl)
              (k 1 (omega arith) refl) (k 2 (omega arith) refl) (k 3 (omega arith) refl)
              (k 4 (omega arith) refl) (k 5 (omega arith) refl) (k 6 (omega arith) refl)
              (k 7 (omega arith) refl) checks.0).6,
          (number8-lower (s 0) (s 1) (s 2) (s 3) (s 4) (s 5) (s 6) (s 7) (k 0 (omega arith) refl)
              (k 1 (omega arith) refl) (k 2 (omega arith) refl) (k 3 (omega arith) refl)
              (k 4 (omega arith) refl) (k 5 (omega arith) refl) (k 6 (omega arith) refl)
              (k 7 (omega arith) refl) checks.0).7,
          checks.1,
          (number4-lower (s 9) (s 10) (s 11) (s 12) (k 9 (omega arith) refl)
              (k 10 (omega arith) refl) (k 11 (omega arith) refl) (k 12 (omega arith) refl)
              checks.2).0,
          (number4-lower (s 9) (s 10) (s 11) (s 12) (k 9 (omega arith) refl)
              (k 10 (omega arith) refl) (k 11 (omega arith) refl) (k 12 (omega arith) refl)
              checks.2).1,
          (number4-lower (s 9) (s 10) (s 11) (s 12) (k 9 (omega arith) refl)
              (k 10 (omega arith) refl) (k 11 (omega arith) refl) (k 12 (omega arith) refl)
              checks.2).2,
          (number4-lower (s 9) (s 10) (s 11) (s 12) (k 9 (omega arith) refl)
              (k 10 (omega arith) refl) (k 11 (omega arith) refl) (k 12 (omega arith) refl)
              checks.2).3,
          checks.3,
          (number4-lower (s 14) (s 15) (s 16) (s 17) (k 14 (omega arith) refl)
              (k 15 (omega arith) refl) (k 16 (omega arith) refl) (k 17 (omega arith) refl)
              checks.4).0,
          (number4-lower (s 14) (s 15) (s 16) (s 17) (k 14 (omega arith) refl)
              (k 15 (omega arith) refl) (k 16 (omega arith) refl) (k 17 (omega arith) refl)
              checks.4).1,
          (number4-lower (s 14) (s 15) (s 16) (s 17) (k 14 (omega arith) refl)
              (k 15 (omega arith) refl) (k 16 (omega arith) refl) (k 17 (omega arith) refl)
              checks.4).2,
          (number4-lower (s 14) (s 15) (s 16) (s 17) (k 14 (omega arith) refl)
              (k 15 (omega arith) refl) (k 16 (omega arith) refl) (k 17 (omega arith) refl)
              checks.4).3,
          checks.5,
          (number2-lower (s 19) (s 20) (k 19 (omega arith) refl) (k 20 (omega arith) refl)
              checks.6).0,
          (number2-lower (s 19) (s 20) (k 19 (omega arith) refl) (k 20 (omega arith) refl)
              checks.6).1,
          (number2-lower (s 21) (s 22) (k 21 (omega arith) refl) (k 22 (omega arith) refl)
              checks.7).0,
          (number2-lower (s 21) (s 22) (k 21 (omega arith) refl) (k 22 (omega arith) refl)
              checks.7).1,
          checks.8,
          (number2-lower (s 24) (s 25) (k 24 (omega arith) refl) (k 25 (omega arith) refl)
              checks.9).0,
          (number2-lower (s 24) (s 25) (k 24 (omega arith) refl) (k 25 (omega arith) refl)
              checks.9).1,
          (number2-lower (s 26) (s 27) (k 26 (omega arith) refl) (k 27 (omega arith) refl)
              checks.10).0,
          (number2-lower (s 26) (s 27) (k 26 (omega arith) refl) (k 27 (omega arith) refl)
              checks.10).1,
          (number2-lower (s 28) (s 29) (k 28 (omega arith) refl) (k 29 (omega arith) refl)
              checks.11).0,
          (number2-lower (s 28) (s 29) (k 28 (omega arith) refl) (k 29 (omega arith) refl)
              checks.11).1,
          (number2-lower (s 30) (s 31) (k 30 (omega arith) refl) (k 31 (omega arith) refl)
              checks.12).0,
          (number2-lower (s 30) (s 31) (k 30 (omega arith) refl) (k 31 (omega arith) refl)
              checks.12).1,
          (number2-lower (s 32) (s 33) (k 32 (omega arith) refl) (k 33 (omega arith) refl)
              checks.13).0,
          (number2-lower (s 32) (s 33) (k 32 (omega arith) refl) (k 33 (omega arith) refl)
              checks.13).1,
          (number2-lower (s 34) (s 35) (k 34 (omega arith) refl) (k 35 (omega arith) refl)
              checks.14).0,
          (number2-lower (s 34) (s 35) (k 34 (omega arith) refl) (k 35 (omega arith) refl)
              checks.14).1,
          checks.15,
        )
        refl

-- A byte text that RTUuidFromStr accepts is written back by RTUuidToStr in lower case.
pub to_text-from_string :
    (s : ℕ → ℕ) (u : Uuid)
    → ((i : ℕ) → s i < 256)
    → from_string true (some s) ≡ (success, some u)
    → to_text u ≡ characters (λ i. lower (s i)) 0 37
to_text-from_string s u k read = elim (Bool-cases (is_uuid_text s)) [
  | inl ok ↦
      let accepted = rw ok at read in
      let e : parse_text s ≡ u = cc (ap (λ r. r.1) accepted) in
      ap to_text (sym e) ∙ to_text-parse_text s ok (λ i h d. k i)
  | inr bad ↦ let refused = rw bad at read in absurd (cc (ap (λ r. r.1) refused))
]

no_high_byte :
    (s : ℕ → ℕ) (i n j : ℕ)
    → have_no_high_bytes s i n ≡ true
    → i ≤ j
    → j < i + n
    → is_separator j ≡ false
    → s j / 256 % 256 ≡ 0
unfolding have_no_high_bytes
no_high_byte s i zero j h l k d = absurd (omega arith)
no_high_byte s i (suc n) j h l k d = elim (Bool-cases (i == j)) [
  | inl same ↦
      subst (λ x. s x / 256 % 256 ≡ 0) ((==_iff i j).0 same)
        (head (subst (λ x. is_separator x ≡ false) (sym ((==_iff i j).0 same)) d))
  | inr apart ↦
      no_high_byte s (i + 1) n j (ground (arith, h)) (ground (arith, apart)) (omega arith) d
]
  where
    head : is_separator i ≡ false → s i / 256 % 256 ≡ 0
    head e = let h' = rw e at h in ground (arith, h')

-- A text of 16-bit characters that RTUuidFromUtf16 accepts is written back in lower case: none of its
-- digits is a character beyond the bytes.
pub to_text-from_utf16 :
    (s : ℕ → ℕ) (u : Uuid)
    → ((i : ℕ) → s i < 2 ^ 16)
    → from_utf16 true (some s) ≡ (success, some u)
    → to_text u ≡ characters (λ i. lower (s i)) 0 37
to_text-from_utf16 s u k read = elim (Bool-cases (have_no_high_bytes s 0 36)) [
  | inr high ↦ let refused = rw high at read in absurd (cc (ap (λ r. r.1) refused))
  | inl bytes ↦ elim (Bool-cases (is_uuid_text s)) [
    | inl ok ↦
        let accepted = rw (bytes, ok) at read in
        let e : parse_text s ≡ u = cc (ap (λ r. r.1) accepted) in
        ap to_text (sym e)
        ∙ to_text-parse_text s ok
            (λ i h d. omega (arith, k i, no_high_byte s 0 36 i bytes (omega arith) (omega arith) d))
    | inr bad ↦ let refused = rw (bytes, bad) at read in absurd (cc (ap (λ r. r.1) refused))
  ]
]
