-- ===== src/Ipv4/Tests.antt =====
-- Runs of the functions of common/checksum/ipv4.c, and the theorems about them at concrete packets.
use virtualbox_drv.Common.{
  ℕ, zero, suc, ◌+◌, ◌-◌, ◌^◌, ◌<◌, ◌≡◌, refl, true, false, none, some, List, [], ◌∷◌, arith, ltb,
  ◌==◌, if◌then◌else◌, inr, Option, Bool,
}
use virtualbox_drv.Ipv4.{Words, sum_words, finalize, hdr_checksum, add_data}
use virtualbox_drv.Ipv4.Data.{in_two, add_data-in_two}
use virtualbox_drv.Ipv4.Dhcp.{Mapped, check_cookie, scan, is_dhcp_valid, is_dhcp_valid-overrun}
use virtualbox_drv.Ipv4.Header.{without_sum, hdr_checksum-ones_sum}
use virtualbox_drv.Ipv4.Sums.{ones_sum}

abbrev words_of : List ℕ → Words
words_of [] i = 0
words_of (w ∷ ws) zero = w
words_of (w ∷ ws) (suc i) = words_of ws i

abbrev Small : List ℕ → Type 0
Small [] = Unit {0}
Small (w ∷ ws) = (w < 2 ^ 16) × Small ws

words_of_lt : (ws : List ℕ) (i : ℕ) → Small ws → words_of ws i < 2 ^ 16
words_of_lt [] i h = omega arith
words_of_lt (w ∷ ws) zero h = h.0
words_of_lt (w ∷ ws) (suc i) h = words_of_lt ws i h.1

-- The header 45 00 00 73 00 00 40 00 40 11 b8 61 c0 a8 00 01 c0 a8 00 c7.
abbrev header : List ℕ
header =
    0x0045 ∷ 0x7300 ∷ 0x0000 ∷ 0x0040 ∷ 0x1140 ∷ 0x61b8 ∷ 0xa8c0 ∷ 0x0100 ∷ 0xa8c0 ∷ 0xc700 ∷ []

header-hdr_checksum : hdr_checksum (words_of header) ≡ 0x61b8
unfolding hdr_checksum finalize sum_words
header-hdr_checksum = refl

hdr_checksum-ones_sum_example :
    hdr_checksum (words_of header) ≡ 2 ^ 16 - 1 - ones_sum (without_sum (words_of header)) 0 10
hdr_checksum-ones_sum_example =
    hdr_checksum-ones_sum (words_of header) (λ k. words_of_lt header k (omega arith)) (omega arith)

-- Five bytes, cut behind the third.
add_data-in_two_example : in_two (λ i. i + 1) 3 2 0 ≡ add_data (λ i. i + 1) 5 0 false
add_data-in_two_example = add_data-in_two (λ i. i + 1) 3 2 0 (omega arith) (inr (omega arith))

-- A DHCP request with a discover message, and the same bytes with nothing mapped from 236 on.
abbrev discover : Mapped
discover i =
    if i == 0
    then some 1
    else if i == 1
    then some 1
    else if i == 2
    then some 6
    else if i == 236
    then some 0x63
    else if i == 237
    then some 0x82
    else if i == 238
    then some 0x53
    else if i == 239
    then some 0x63
    else if i == 240
    then some 53
    else if i == 241
    then some 1
    else if i == 242
    then some 1
    else some 0

discover-valid : is_dhcp_valid discover 243 ≡ some (true, 1)
unfolding is_dhcp_valid check_cookie scan
discover-valid = refl

discover-mapped : (i : ℕ) → (b : ℕ) × (discover i ≡ some b)
discover-mapped i = mapped_if (i == 0) 1 _ (
    mapped_if (i == 1) 1 _ (
      mapped_if (i == 2) 6 _ (
        mapped_if (i == 236) 0x63 _ (
          mapped_if (i == 237) 0x82 _ (
            mapped_if (i == 238) 0x53 _ (
              mapped_if (i == 239) 0x63 _ (
                mapped_if (i == 240) 53 _
                  (mapped_if (i == 241) 1 _ (mapped_if (i == 242) 1 _ (0, refl))))))))))
  where
    mapped_if :
        (t : Bool) (x : ℕ) (rest : Option ℕ)
        → ((b : ℕ) × (rest ≡ some b))
        → (b : ℕ) × ((if t then some x else rest) ≡ some b)
    mapped_if true x rest h = (x, refl)
    mapped_if false x rest h = h

-- The same bytes with nothing mapped from 236 on.
abbrev truncated : Mapped
truncated i = if ltb i 236 then discover i else none

is_dhcp_valid-overrun_example : is_dhcp_valid truncated 236 ≡ none
is_dhcp_valid-overrun_example =
    is_dhcp_valid-overrun truncated 236 (omega arith) (omega arith)
      (λ i h. let e : ltb i 236 ≡ false = ground (arith, h) in rw e refl)
      (refl, refl, refl, refl, refl)
