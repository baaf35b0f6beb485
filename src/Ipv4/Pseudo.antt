-- ===== src/Ipv4/Pseudo.antt =====
-- The pseudo headers of common/checksum/ipv4.c and ipv6.c.
use virtualbox_drv.Common.{ℕ, ◌+◌, ◌-◌, ◌*◌, ◌%◌, ◌^◌, ◌<◌, ◌≡◌, arith}
use virtualbox_drv.Ipv4.{
  Words, swap16, ip_p, ip_hl, ip_len, pseudo_checksum, pseudo_checksum_bits, ipv6_pseudo_checksum,
}

-- The checksum from the header is the one from its parts, in host order.
pub pseudo_checksum-bits :
    (ip : Words)
    → ((k : ℕ) → ip k < 2 ^ 16)
    → pseudo_checksum ip
      ≡ pseudo_checksum_bits
          (swap16 (ip 6))
          (swap16 (ip 7))
          (swap16 (ip 8))
          (swap16 (ip 9))
          (ip_p ip)
          ((swap16 (ip_len ip) + 2 ^ 16 - ip_hl ip * 4) % 2 ^ 16)
unfolding pseudo_checksum pseudo_checksum_bits
pseudo_checksum-bits ip small = omega (arith, small 6, small 7, small 8, small 9)

-- The word with the protocol is 256 times its number in the pseudo header of IPv4, but the number
-- itself in that of IPv6.
pub pseudo_checksum-protocol :
    (src dst : Words) (s0 s1 d0 d1 protocol size : ℕ)
    → protocol < 256
    → (pseudo_checksum_bits s0 s1 d0 d1 protocol size
        ≡ pseudo_checksum_bits s0 s1 d0 d1 0 size + protocol * 256)
      × (ipv6_pseudo_checksum src dst protocol size
          ≡ ipv6_pseudo_checksum src dst 0 size + protocol)
unfolding pseudo_checksum_bits ipv6_pseudo_checksum
pseudo_checksum-protocol src dst s0 s1 d0 d1 protocol size h = (omega arith, omega arith)
