-- ===== src/Ipv4/Sums.antt =====
-- The sums of common/checksum/ipv4.c are the ones' complement sums of RFC 1071.
use virtualbox_drv.Common.{
  ℕ, zero, suc, ◌+◌, ◌-◌, ◌*◌, ◌/◌, ◌%◌, ◌^◌, ◌<◌, ◌≤◌, ◌≡◌, refl, ltb, arith, if◌then◌else◌, ap,
  ◌∙◌,
}
use virtualbox_drv.Ipv4.{Words, finalize, sum_words}

-- The sum of two 16-bit words with the carry added at the end.
abbrev pub add_ones : ℕ → ℕ → ℕ
add_ones a b = if ltb (a + b) (2 ^ 16) then a + b else a + b - (2 ^ 16 - 1)

-- The ones' complement sum of the words from `i` on, `n` of them.
unfoldable pub ones_sum : Words → (i n : ℕ) → ℕ
ones_sum w i zero = 0
ones_sum w i (suc n) = add_ones (w i) (ones_sum w (i + 1) n)

-- A 32-bit sum folded to 16 bits.
abbrev pub fold : ℕ → ℕ
fold s = (s / 2 ^ 16 + s % 2 ^ 16 + (s / 2 ^ 16 + s % 2 ^ 16) / 2 ^ 16) % 2 ^ 16

pub fold_lt : (s : ℕ) → s < 2 ^ 32 → fold s < 2 ^ 16
fold_lt s h = omega arith

pub fold-add : (x s : ℕ) → x < 2 ^ 16 → x + s < 2 ^ 32 → fold (x + s) ≡ add_ones x (fold s)
fold-add x s h k = ground arith

pub sum_words_lt : (w : Words) (i n : ℕ) → ((k : ℕ) → w k < 2 ^ 16) → sum_words w i n ≤ n * 2 ^ 16
unfolding sum_words
sum_words_lt w i zero h = omega arith
sum_words_lt w i (suc n) h = omega (arith, h i, sum_words_lt w (i + 1) n h)

-- Adding up the words in 32 bits and folding at the end gives the ones' complement sum.
pub fold-sum_words :
    (w : Words) (i n : ℕ)
    → ((k : ℕ) → w k < 2 ^ 16)
    → n < 2 ^ 16
    → fold (sum_words w i n) ≡ ones_sum w i n
unfolding sum_words ones_sum
fold-sum_words w i zero h k = refl
fold-sum_words w i (suc n) h k =
    fold-add (w i) (sum_words w (i + 1) n) (h i) (omega (arith, h i, sum_words_lt w (i + 1) n h))
    ∙ ap (add_ones (w i)) (fold-sum_words w (i + 1) n h (omega arith))

pub finalize-fold : (s : ℕ) → s < 2 ^ 32 → finalize s ≡ 2 ^ 16 - 1 - fold s
unfolding finalize
finalize-fold s h = omega arith

-- A checksum beside the words that it was taken of makes the sum of all words the ones' complement
-- zero, 0xffff.
pub finalize-checks : (s : ℕ) → s < 2 ^ 32 → add_ones (finalize s) (fold s) ≡ 2 ^ 16 - 1
finalize-checks s h = rw (finalize-fold s h) (ground (arith, fold_lt s h))
