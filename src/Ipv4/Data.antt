-- ===== src/Ipv4/Data.antt =====
-- Checksums of data in pieces, in common/checksum/ipv4.c.
use virtualbox_drv.Common.{
  ℕ, zero, suc, ◌+◌, ◌-◌, ◌*◌, ◌/◌, ◌%◌, ◌^◌, ◌<◌, ◌≤◌, ◌≡◌, ◌⊎◌, refl, Bool, true, false, ◌==◌,
  arith, ap, ◌∙◌, sym, Bool-cases, inl, inr, subst,
}
use virtualbox_drv.Ipv4.{Bytes, add32, add_words, add_even, add_data}

-- The data behind the first bytes.
abbrev pub drop_bytes : ℕ → Bytes → Bytes
drop_bytes n d i = d (n + i)

add_words-split :
    (d : Bytes) (i a b k sum : ℕ)
    → k ≡ a + b
    → add_words d i k sum ≡ add_words d (i + a * 2) b (add_words d i a sum)
unfolding add_words
add_words-split d i zero b k sum e =
    let same : k ≡ b = omega arith in
    let start : i + 0 * 2 ≡ i = omega arith in rw (same, start) refl
add_words-split d i (suc a) b k sum e =
    let next : k ≡ suc (a + b) = omega arith in
    let start : i + 2 + a * 2 ≡ i + suc a * 2 = omega arith in
    rw next (
      add_words-split d (i + 2) a b (a + b) (add32 sum (d i + d (i + 1) * 2 ^ 8)) refl
      ∙ ap (λ j. add_words d j b (add_words d (i + 2) a (add32 sum (d i + d (i + 1) * 2 ^ 8))))
          start)

add_words-drop_bytes :
    (d : Bytes) (m i n sum : ℕ) → add_words (drop_bytes m d) i n sum ≡ add_words d (m + i) n sum
unfolding add_words
add_words-drop_bytes d m i zero sum = refl
add_words-drop_bytes d m i (suc n) sum =
    let one : m + (i + 1) ≡ m + i + 1 = omega arith in
    let two : m + (i + 2) ≡ m + i + 2 = omega arith in
    rw
      (
        add_words-drop_bytes d m (i + 2) n (add32 sum (d (m + i) + d (m + (i + 1)) * 2 ^ 8)),
        one,
        two,
      )
      refl

add_even-drop_bytes :
    (d : Bytes) (m i size sum : ℕ)
    → add_even (drop_bytes m d) i size sum ≡ add_even d (m + i) size sum
unfolding add_even
add_even-drop_bytes d m i size sum =
    let last : m + (i + (size - 1)) ≡ m + i + (size - 1) = omega arith in
    rw (add_words-drop_bytes d m i (size / 2) sum, last) refl

words_split :
    (d : Bytes) (a b sum : ℕ)
    → add_words d 0 (a + b) sum ≡ add_words d (a * 2) b (add_words d 0 a sum)
words_split d a b sum =
    let start : 0 + a * 2 ≡ a * 2 = omega arith in
    add_words-split d 0 a b (a + b) sum refl ∙ ap (λ j. add_words d j b (add_words d 0 a sum)) start

-- Whole words first, and then the rest.
add_even-split :
    (d : Bytes) (a n sum k : ℕ)
    → k ≡ a * 2 + n
    → add_even d 0 k sum ≡ add_even d (a * 2) n (add_words d 0 a sum)
unfolding add_even
add_even-split d a n sum k e =
    let half : k / 2 ≡ a + n / 2 = omega arith in
    let parity : k % 2 ≡ n % 2 = omega arith in
    let words = words_split d a (n / 2) sum in
    elim (Bool-cases (n % 2 == 1)) [
      | inl odd ↦
          let last : 0 + (k - 1) ≡ a * 2 + (n - 1) = ground arith in
          rw (half, parity, odd, last, words) refl
      | inr even ↦ rw (half, parity, even, words) refl
    ]

even_size : (d : Bytes) (a sum : ℕ) → add_even d 0 (a * 2) sum ≡ (add_words d 0 a sum, false)
unfolding add_even
even_size d a sum =
    let half : a * 2 / 2 ≡ a = omega arith in
    let parity : a * 2 % 2 ≡ 0 = omega arith in rw (half, parity) refl

odd_size :
    (d : Bytes) (a sum : ℕ)
    → add_even d 0 (a * 2 + 1) sum ≡ (add32 (add_words d 0 a sum) (d (a * 2)), true)
unfolding add_even
odd_size d a sum =
    let half : (a * 2 + 1) / 2 ≡ a = omega arith in
    let parity : (a * 2 + 1) % 2 ≡ 1 = omega arith in
    let last : 0 + (a * 2 + 1 - 1) ≡ a * 2 = omega arith in rw (half, parity, last) refl

-- The data in two calls: the first bytes, and the others with what the first call returned.
abbrev pub in_two : Bytes → (m n sum : ℕ) → ℕ × Bool
in_two d m n sum = let first = add_data d m sum false in add_data (drop_bytes m d) n first.0 first.1

even_piece : (d : Bytes) (a n sum : ℕ) → in_two d (a * 2) n sum ≡ add_data d (a * 2 + n) sum false
unfolding add_data
even_piece d a n sum =
    let start : a * 2 + 0 ≡ a * 2 = omega arith in
    rw (even_size d a sum, add_data)
      (add_even-drop_bytes d (a * 2) 0 n (add_words d 0 a sum)
        ∙ ap (λ j. add_even d j n (add_words d 0 a sum)) start
        ∙ sym (add_even-split d a n sum (a * 2 + n) refl))

-- One word more, of the two bytes at the seam.
seam :
    (d : Bytes) (a sum : ℕ)
    → add_words d 0 (a + 1) sum
      ≡ add32 (add32 (add_words d 0 a sum) (d (a * 2))) (d (a * 2 + 1) * 2 ^ 8)
seam d a sum = words_split d a 1 sum ∙ unfold add_words in omega arith

odd_piece :
    (d : Bytes) (a n sum : ℕ)
    → 2 ≤ n
    → n < 2 ^ 64
    → in_two d (a * 2 + 1) n sum ≡ add_data d (a * 2 + 1 + n) sum false
unfolding add_data
odd_piece d a n sum h k =
    let rest : (n + 2 ^ 64 - 1) % 2 ^ 64 ≡ n - 1 = omega arith in
    let more : (n - 1 == 0) ≡ false = ground arith in
    let start : a * 2 + 1 + 1 ≡ (a + 1) * 2 = omega arith in
    let here : a * 2 + 1 + 0 ≡ a * 2 + 1 = omega arith in
    rw (odd_size d a sum, add_data, rest, more, here)
      (add_even-drop_bytes d (a * 2 + 1) 1 (n - 1) _
        ∙ ap
            (λ j.
              add_even d j (n - 1)
                (add32 (add32 (add_words d 0 a sum) (d (a * 2))) (d (a * 2 + 1) * 2 ^ 8)))
            start
        ∙ ap (add_even d ((a + 1) * 2) (n - 1)) (sym (seam d a sum))
        ∙ sym (add_even-split d (a + 1) (n - 1) sum (a * 2 + 1 + n) (omega arith)))

-- Data that is added in two calls gives the same sum and flag as in one call, wherever it is cut, if
-- the first part has an even size or the second part two bytes at least.
pub add_data-in_two :
    (d : Bytes) (m n sum : ℕ)
    → n < 2 ^ 64
    → (m % 2 ≡ 0) ⊎ (2 ≤ n)
    → in_two d m n sum ≡ add_data d (m + n) sum false
add_data-in_two d m n sum k cut = elim (Bool-cases (m % 2 == 0)) [
  | inl even ↦
      let e : m / 2 * 2 ≡ m = ground arith in
      subst (λ j. in_two d j n sum ≡ add_data d (j + n) sum false) e (even_piece d (m / 2) n sum)
  | inr odd ↦
      let e : m / 2 * 2 + 1 ≡ m = ground arith in
      let two : 2 ≤ n = ground (arith, cut) in
      subst (λ j. in_two d j n sum ≡ add_data d (j + n) sum false) e
        (odd_piece d (m / 2) n sum two k)
]

-- Three calls of one byte each: the second leaves the flag set, so that the third byte is taken for
-- the upper one of a word as well.
pub add_data-single_bytes :
    (a b c sum : ℕ)
    → sum + a + b * 2 ^ 8 + c * 2 ^ 8 < 2 ^ 32
    → (let first = add_data (λ _. a) 1 sum false in
        let second = add_data (λ _. b) 1 first.0 first.1 in add_data (λ _. c) 1 second.0 second.1)
      ≡ (sum + a + b * 2 ^ 8 + c * 2 ^ 8, true)
unfolding add_data add_even add_words
add_data-single_bytes a b c sum h = ground arith
