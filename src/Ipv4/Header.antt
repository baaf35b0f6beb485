-- ===== src/Ipv4/Header.antt =====
-- The header checksum of common/checksum/ipv4.c, and the headers that RTNetIPv4IsHdrValid accepts.
use virtualbox_drv.Common.{
  ℕ, zero, suc, ◌+◌, ◌-◌, ◌*◌, ◌^◌, ◌<◌, ◌≤◌, ◌≡◌, refl, true, false, ltb, ◌==◌, arith,
  if◌then◌else◌, ap, ◌∙◌, sym, Bool-cases, inl, inr,
}
use virtualbox_drv.Ipv4.{
  Words, finalize, sum_words, option_words, hdr_checksum, is_hdr_valid, ip_hl, ip_v, ip_len, ip_sum,
  swap16,
}
use virtualbox_drv.Ipv4.Sums.{
  add_ones, ones_sum, fold, fold-add, fold-sum_words, sum_words_lt, finalize-fold, finalize-checks,
}

-- The words with 0 for the checksum.
abbrev pub without_sum : Words → Words
without_sum ip i = if i == 5 then 0 else ip i

sum_words-without_sum :
    (ip : Words) (i n : ℕ) → 5 < i → sum_words (without_sum ip) i n ≡ sum_words ip i n
unfolding sum_words
sum_words-without_sum ip i zero h = refl
sum_words-without_sum ip i (suc n) h =
    let e : (i == 5) ≡ false = ground (arith, h) in
    rw e (ap (λ s. ip i + s) (sum_words-without_sum ip (i + 1) n (omega arith)))

-- The sum of ten words and more.
ten_words :
    (w : Words) (k n : ℕ)
    → k ≡ n + 10
    → sum_words w 0 k ≡ w 0 + w 1 + w 2 + w 3 + w 4 + w 5 + w 6 + w 7 + w 8 + w 9 + sum_words w 10 n
unfolding sum_words
ten_words w k n e =
    let ten : k ≡ suc (suc (suc (suc (suc (suc (suc (suc (suc (suc n))))))))) = omega arith in
    rw ten (omega arith)

module _ (ip : Words) (small : (k : ℕ) → ip k < 2 ^ 16) (h : 5 ≤ ip_hl ip) where
  words_small : (k : ℕ) → without_sum ip k < 2 ^ 16
  words_small k = elim (Bool-cases (k == 5)) [
    | inl hit ↦ rw hit (omega arith)
    | inr miss ↦ rw miss (small k)
  ]

  -- The options as a sum, at every length of the header.
  options : option_words ip (ip_hl ip) ≡ sum_words ip 10 ((ip_hl ip - 5) * 2)
  options = elim (Bool-cases (ltb 5 (ip_hl ip))) [
    | inl more ↦ rw more refl
    | inr none_left ↦
        let e : (ip_hl ip - 5) * 2 ≡ 0 = ground (arith, none_left) in
        rw (none_left, e) (unfold sum_words in refl)
  ]

  length_eq : ip_hl ip * 2 ≡ (ip_hl ip - 5) * 2 + 10
  length_eq = omega arith

  all_words :
      sum_words (without_sum ip) 0 (ip_hl ip * 2)
      ≡ ip 0 + ip 1 + ip 2 + ip 3 + ip 4 + ip 6 + ip 7 + ip 8 + ip 9 + option_words ip (ip_hl ip)
  all_words = omega (
    arith,
    ten_words (without_sum ip) (ip_hl ip * 2) ((ip_hl ip - 5) * 2) length_eq,
    sum_words-without_sum ip 10 ((ip_hl ip - 5) * 2) (omega arith),
    options,
  )

  bound : sum_words (without_sum ip) 0 (ip_hl ip * 2) < 2 ^ 22
  bound = omega (arith, sum_words_lt (without_sum ip) 0 (ip_hl ip * 2) words_small)

  hdr_checksum-finalize : hdr_checksum ip ≡ finalize (sum_words (without_sum ip) 0 (ip_hl ip * 2))
  unfolding hdr_checksum
  hdr_checksum-finalize = ap finalize (omega (arith, all_words, bound))

  -- RTNetIPv4HdrChecksum is the inverted ones' complement sum of the words of the header, where the
  -- checksum counts as 0.
  pub hdr_checksum-ones_sum :
      hdr_checksum ip ≡ 2 ^ 16 - 1 - ones_sum (without_sum ip) 0 (ip_hl ip * 2)
  hdr_checksum-ones_sum =
      hdr_checksum-finalize
      ∙ finalize-fold (sum_words (without_sum ip) 0 (ip_hl ip * 2)) (omega (arith, bound))
      ∙ ap (λ s. 2 ^ 16 - 1 - s)
          (fold-sum_words (without_sum ip) 0 (ip_hl ip * 2) words_small (omega arith))

  -- All words, the checksum among them.
  with_sum : sum_words ip 0 (ip_hl ip * 2) ≡ ip 5 + sum_words (without_sum ip) 0 (ip_hl ip * 2)
  with_sum =
      omega (arith, ten_words ip (ip_hl ip * 2) ((ip_hl ip - 5) * 2) length_eq, all_words, options)

  checked : ip_sum ip ≡ hdr_checksum ip → ones_sum ip 0 (ip_hl ip * 2) ≡ 2 ^ 16 - 1
  checked e =
      let s = sum_words (without_sum ip) 0 (ip_hl ip * 2) in
      sym (fold-sum_words ip 0 (ip_hl ip * 2) small (omega arith))
      ∙ ap fold with_sum
      ∙ fold-add (ip 5) s (small 5) (omega (arith, bound, small 5))
      ∙ ap (λ c. add_ones c (fold s)) (e ∙ hdr_checksum-finalize)
      ∙ finalize-checks s (omega (arith, bound))

-- What a header that RTNetIPv4IsHdrValid accepts, checksum included, is.
pub record Accepted (ip : Words) (hdr_max pkt_max : ℕ) : Type 0 where
  pub length_least : 5 ≤ ip_hl ip
  pub length_most : ip_hl ip * 4 ≤ hdr_max
  pub version : ip_v ip ≡ 4
  pub packet : swap16 (ip_len ip) ≤ pkt_max
  pub sum : ones_sum ip 0 (ip_hl ip * 2) ≡ 2 ^ 16 - 1

-- An accepted header has a length of 20 bytes or more that is mapped, version four and a packet
-- length within the packet, and its words sum up to the ones' complement zero, which is the test of
-- RFC 1071 for a header without errors.
pub is_hdr_valid-Accepted :
    (ip : Words) (hdr_max pkt_max : ℕ)
    → ((k : ℕ) → ip k < 2 ^ 16)
    → is_hdr_valid ip hdr_max pkt_max true ≡ true
    → Accepted ip hdr_max pkt_max
unfolding is_hdr_valid
is_hdr_valid-Accepted ip hdr_max pkt_max small h =
    let least : 5 ≤ ip_hl ip = ground arith in
    record {
      length_least = least;
      length_most = ground arith;
      version = ground arith;
      packet = ground arith;
      sum = checked ip small least (ground arith);
    }
