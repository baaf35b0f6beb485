-- ===== src/Ipv4/Sizes.antt =====
-- The size checks of UDP and TCP packets in common/checksum/ipv4.c.
use virtualbox_drv.Common.{
  ℕ, ◌+◌, ◌*◌, ◌^◌, ◌<◌, ◌≤◌, ◌≡◌, ◌↔◌, true, ltb, arith, Bool-cases, inl, inr,
}
use virtualbox_drv.Ipv4.{
  Words, ip_hl, ip_len, uh_ulen, th_off, swap16, payload_size, is_udp_size_valid, is_tcp_size_valid,
}

swap16_lt : (x : ℕ) → swap16 x < 2 ^ 16
swap16_lt x = omega arith

payload :
    (ip : Words)
    → ip_hl ip * 4 ≤ swap16 (ip_len ip)
    → payload_size ip + ip_hl ip * 4 ≡ swap16 (ip_len ip)
payload ip h = omega (arith, swap16_lt (ip_len ip))

short_payload : (ip : Words) → swap16 (ip_len ip) < ip_hl ip * 4 → 2 ^ 63 < payload_size ip
short_payload ip h = omega arith

-- A packet length that does not reach to the end of the IPv4 header.
abbrev pub IsShort : Words → Type 0
IsShort ip = swap16 (ip_len ip) < ip_hl ip * 4

-- In a packet that is as long as its IPv4 header at least, a UDP size is accepted exactly if the UDP
-- header fits into the buffer, and the UDP length into the buffer and into the payload of the packet.
pub is_udp_size_valid_iff :
    (ip udp : Words) (pkt_max : ℕ)
    → ip_hl ip * 4 ≤ swap16 (ip_len ip)
    → (is_udp_size_valid ip udp pkt_max ≡ true) ↔ (
        (8 ≤ pkt_max)
        × (swap16 (uh_ulen udp) ≤ pkt_max)
        × (swap16 (uh_ulen udp) + ip_hl ip * 4 ≤ swap16 (ip_len ip)))
unfolding is_udp_size_valid
is_udp_size_valid_iff ip udp pkt_max h =
    let e = payload ip h in (λ valid. ground arith, λ fits. ground arith)

-- In a packet that is shorter than its IPv4 header the payload is not looked at: every UDP length that
-- fits into the buffer is accepted.
pub is_udp_size_valid-IsShort :
    (ip udp : Words) (pkt_max : ℕ)
    → IsShort ip
    → (is_udp_size_valid ip udp pkt_max ≡ true) ↔ ((8 ≤ pkt_max) × (swap16 (uh_ulen udp) ≤ pkt_max))
unfolding is_udp_size_valid
is_udp_size_valid-IsShort ip udp pkt_max h =
    let far = short_payload ip h in
    let word = swap16_lt (uh_ulen udp) in (λ valid. ground arith, λ fits. ground arith)

-- A TCP size is accepted if the buffers hold the fixed header, the header with its options, and the
-- payload of the packet, which is never the case of a packet that is shorter than its IPv4 header.
pub is_tcp_size_valid_iff :
    (ip tcp : Words) (hdr_max pkt_max : ℕ)
    → pkt_max < 2 ^ 63
    → (is_tcp_size_valid ip tcp hdr_max pkt_max ≡ true) ↔ (
        (20 ≤ pkt_max)
        × (th_off tcp * 4 ≤ hdr_max)
        × (ip_hl ip * 4 ≤ swap16 (ip_len ip))
        × (swap16 (ip_len ip) ≤ pkt_max + ip_hl ip * 4))
unfolding is_tcp_size_valid
is_tcp_size_valid_iff ip tcp hdr_max pkt_max small =
    elim (Bool-cases (ltb (swap16 (ip_len ip)) (ip_hl ip * 4))) [
      | inl short ↦
          let far = short_payload ip (ground (arith, short)) in
          (λ valid. ground arith, λ fits. ground arith)
      | inr long ↦
          let e = payload ip (ground arith) in (λ valid. ground arith, λ fits. ground arith)
    ]
