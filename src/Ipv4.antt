-- ===== src/Ipv4.antt =====
-- The checksums of common/checksum/ipv4.c and ipv6.c, on a little endian host. A header is what a
-- pointer to 16-bit words reads at an index, and data what a pointer to bytes reads.
pub mod Data
pub mod Dhcp
pub mod Header
pub mod Pseudo
pub mod Sizes
pub mod Sums
mod Tests
use virtualbox_drv.Common.{
  ℕ, zero, suc, ◌+◌, ◌-◌, ◌*◌, ◌/◌, ◌%◌, ◌^◌, Bool, true, false, not, ◌&&◌, ltb, leb, ◌==◌,
  if◌then◌else◌,
}

-- `+=` on a uint32_t.
abbrev pub add32 : ℕ → ℕ → ℕ
add32 a b = (a + b) % 2 ^ 32

-- RT_BE2H_U16 and RT_H2BE_U16.
abbrev pub swap16 : ℕ → ℕ
swap16 x = x % 256 * 256 + x / 256 % 256

-- RTNETIPV4: the fields in its words.
abbrev pub Words : Type 0
Words = ℕ → ℕ

abbrev pub ip_hl : Words → ℕ
ip_hl ip = ip 0 % 16

abbrev pub ip_v : Words → ℕ
ip_v ip = ip 0 / 16 % 16

abbrev pub ip_len : Words → ℕ
ip_len ip = ip 1

abbrev pub ip_p : Words → ℕ
ip_p ip = ip 4 / 256

abbrev pub ip_sum : Words → ℕ
ip_sum ip = ip 5

-- RTNETTCP::th_off and th_sum.
abbrev pub th_off : Words → ℕ
th_off tcp = tcp 6 / 16 % 16

abbrev pub th_sum : Words → ℕ
th_sum tcp = tcp 8

-- RTNETUDP::uh_ulen and uh_sum.
abbrev pub uh_ulen : Words → ℕ
uh_ulen udp = udp 2

abbrev pub uh_sum : Words → ℕ
uh_sum udp = udp 3

-- The words from `i` on, `n` of them, added up.
unfoldable pub sum_words : Words → (i n : ℕ) → ℕ
sum_words w i zero = 0
sum_words w i (suc n) = w i + sum_words w (i + 1) n

-- The words of the options, which the source writes out for every header length: there are none at a
-- length of five, and the field has four bits.
abbrev pub option_words : Words → (length : ℕ) → ℕ
option_words w length = if ltb 5 length then sum_words w 10 ((length - 5) * 2) else 0

-- rtNetIPv4FinalizeChecksum: the high word is added to the low one, then the carry, and the bits are
-- inverted.
unfoldable pub finalize : ℕ → ℕ
finalize sum =
    let folded = sum / 2 ^ 16 + sum % 2 ^ 16 in
    let carried = add32 folded (folded / 2 ^ 16) in (2 ^ 32 - 1 - carried) % 2 ^ 16

-- RTNetIPv4HdrChecksum.
unfoldable pub hdr_checksum : Words → ℕ
hdr_checksum ip =
    let fixed = ip 0 + ip 1 + ip 2 + ip 3 + ip 4 + ip 6 + ip 7 + ip 8 + ip 9 in
    finalize (add32 fixed (option_words ip (ip_hl ip)))

-- RTNetIPv4IsHdrValid.
unfoldable pub is_hdr_valid : Words → (hdr_max pkt_max : ℕ) → (checksum : Bool) → Bool
is_hdr_valid ip hdr_max pkt_max checksum =
    if ltb hdr_max 20
    then false
    else if ltb (ip_hl ip * 4) 20
    then false
    else if ltb hdr_max (ip_hl ip * 4)
    then false
    else if not (ip_v ip == 4)
    then false
    else if ltb pkt_max (swap16 (ip_len ip))
    then false
    else if checksum && not (ip_sum ip == hdr_checksum ip)
    then false
    else true

-- rtNetIPv4PseudoChecksum.
unfoldable pub pseudo_checksum : Words → ℕ
pseudo_checksum ip =
    let payload = (swap16 (ip_len ip) + 2 ^ 16 - ip_hl ip * 4) % 2 ^ 16 in
    ip 6 + ip 7 + ip 8 + ip 9 + ip_p ip * 2 ^ 8 + swap16 payload

-- RTNetIPv4PseudoChecksumBits, with the two words of each address.
unfoldable pub pseudo_checksum_bits : (src0 src1 dst0 dst1 protocol size : ℕ) → ℕ
pseudo_checksum_bits src0 src1 dst0 dst1 protocol size =
    swap16 src0 + swap16 src1 + swap16 dst0 + swap16 dst1 + protocol * 2 ^ 8 + swap16 size

-- rtNetIPv6PseudoChecksumBits, with the words of the addresses.
unfoldable pub ipv6_pseudo_checksum : Words → Words → (protocol size : ℕ) → ℕ
ipv6_pseudo_checksum src dst protocol size =
    sum_words src 0 8
    + sum_words dst 0 8
    + swap16 (size / 2 ^ 16 % 2 ^ 16)
    + swap16 (size % 2 ^ 16)
    + swap16 (protocol * 2 ^ 8)

-- rtNetIPv4AddUDPChecksum.
unfoldable pub add_udp : Words → (sum : ℕ) → ℕ
add_udp udp sum = add32 sum (udp 0 + udp 1 + udp 2)

-- rtNetIPv4AddTCPChecksum.
unfoldable pub add_tcp : Words → (sum : ℕ) → ℕ
add_tcp tcp sum =
    let fixed = tcp 0 + tcp 1 + tcp 2 + tcp 3 + tcp 4 + tcp 5 + tcp 6 + tcp 7 + tcp 9 in
    add32 (add32 sum fixed) (option_words tcp (th_off tcp))

abbrev pub Bytes : Type 0
Bytes = ℕ → ℕ

-- The loop over the words of the data: `n` of them, from the byte `i` on.
unfoldable pub add_words : Bytes → (i n sum : ℕ) → ℕ
add_words d i zero sum = sum
add_words d i (suc n) sum = add_words d (i + 2) n (add32 sum (d i + d (i + 1) * 2 ^ 8))

-- The data from the byte `i` on: the words, and the odd byte with its flag.
unfoldable pub add_even : Bytes → (i size sum : ℕ) → ℕ × Bool
add_even d i size sum =
    let words = add_words d i (size / 2) sum in
    if size % 2 == 1 then (add32 words (d (i + (size - 1))), true) else (words, false)

-- rtNetIPv4AddDataChecksum: the sum and `*pfOdd`. `size` is a size_t.
unfoldable pub add_data : Bytes → (size sum : ℕ) → (odd : Bool) → ℕ × Bool
add_data d size sum odd =
    if odd
    then (let upper = add32 sum (d 0 * 2 ^ 8) in
        let rest = (size + 2 ^ 64 - 1) % 2 ^ 64 in
        if rest == 0 then (upper, true) else add_even d 1 rest upper)
    else add_even d 0 size sum

-- RTNetUDPChecksum and RTNetIPv4UDPChecksum: the sum of the pseudo header, the header and the data.
unfoldable pub udp_checksum : (sum : ℕ) → Words → Bytes → ℕ
udp_checksum sum udp d =
    finalize (add_data d ((swap16 (uh_ulen udp) + 2 ^ 64 - 8) % 2 ^ 64) (add_udp udp sum) false).0

abbrev pub ipv4_udp_checksum : Words → Words → Bytes → ℕ
ipv4_udp_checksum ip udp d = udp_checksum (pseudo_checksum ip) udp d

-- What follows the IPv4 header, as a size_t.
abbrev pub payload_size : Words → ℕ
payload_size ip = (swap16 (ip_len ip) + 2 ^ 64 - ip_hl ip * 4) % 2 ^ 64

-- rtNetIPv4IsUDPSizeValid.
unfoldable pub is_udp_size_valid : Words → Words → (pkt_max : ℕ) → Bool
is_udp_size_valid ip udp pkt_max =
    if ltb pkt_max 8
    then false
    else if ltb pkt_max (swap16 (uh_ulen udp))
    then false
    else if ltb (payload_size ip) (swap16 (uh_ulen udp))
    then false
    else true

-- RTNetIPv4IsUDPValid.
unfoldable pub is_udp_valid : Words → Words → Bytes → (pkt_max : ℕ) → (checksum : Bool) → Bool
is_udp_valid ip udp d pkt_max checksum =
    if not (is_udp_size_valid ip udp pkt_max)
    then false
    else if (checksum && not (uh_sum udp == 0)) && not (uh_sum udp == ipv4_udp_checksum ip udp d)
    then false
    else true

-- RTNetTCPChecksum and RTNetIPv4TCPChecksum.
unfoldable pub tcp_checksum : (sum : ℕ) → Words → Bytes → (size : ℕ) → ℕ
tcp_checksum sum tcp d size = finalize (add_data d size (add_tcp tcp sum) false).0

abbrev pub ipv4_tcp_checksum : Words → Words → Bytes → ℕ
ipv4_tcp_checksum ip tcp d =
    tcp_checksum (pseudo_checksum ip) tcp d
      ((swap16 (ip_len ip) + 2 ^ 65 - ip_hl ip * 4 - th_off tcp * 4) % 2 ^ 64)

-- rtNetIPv4IsTCPSizeValid.
unfoldable pub is_tcp_size_valid : Words → Words → (hdr_max pkt_max : ℕ) → Bool
is_tcp_size_valid ip tcp hdr_max pkt_max =
    if ltb pkt_max 20
    then false
    else if ltb hdr_max (th_off tcp * 4)
    then false
    else if ltb pkt_max (payload_size ip)
    then false
    else true

-- RTNetIPv4IsTCPValid.
unfoldable pub is_tcp_valid :
    Words → Words → (hdr_max : ℕ) → Bytes → (pkt_max : ℕ) → (checksum : Bool) → Bool
is_tcp_valid ip tcp hdr_max d pkt_max checksum =
    if not (is_tcp_size_valid ip tcp hdr_max pkt_max)
    then false
    else if checksum && not (th_sum tcp == ipv4_tcp_checksum ip tcp d)
    then false
    else true
