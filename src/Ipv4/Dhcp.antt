-- ===== src/Ipv4/Dhcp.antt =====
-- RTNetIPv4IsDHCPValid of common/checksum/ipv4.c.
use virtualbox_drv.Common.{
  ℕ, zero, suc, ◌+◌, ◌-◌, ◌*◌, ◌%◌, ◌^◌, ◌<◌, ◌≤◌, ◌≡◌, refl, Bool, true, false, not, ◌&&◌, Option,
  none, some, ltb, leb, ◌==◌, arith, if◌then◌else◌, Bool-cases, Option-cases, inl, inr, Returns,
  ◌>>=◌, if_intro, subst,
}

-- The bytes at a pointer; `none` where nothing is mapped, so that a read is a fault.
abbrev pub Mapped : Type 0
Mapped = ℕ → Option ℕ

-- RTNET_DHCP_MT_*.
abbrev pub is_message_type : ℕ → Bool
is_message_type m = leb 1 m && leb m 8

-- The loop over the options, at the offset `o` with `left` bytes left; the result and the message type
-- that is stored. An option is never shorter than one byte, so that `left` rounds are enough; a
-- difference below 0 ends the loop as 0 does. No type was seen when an END is met.
unfoldable pub scan : (rounds : ℕ) → Mapped → (o left : ℕ) → Option (Bool × ℕ)
scan zero d o left = if left == 0 then some (true, 0) else none
scan (suc n) d o left = elim (left == 0) [
  | true ↦ some (true, 0)
  | false ↦ do
    code ← d o
    elim (code == 255) [
      | true ↦ some (false, 0)
      | false ↦ elim (code == 0) [
        | true ↦ scan n d (o + 1) (left - 1)
        | false ↦ elim (code == 53) [
          | true ↦
              if ltb left 3
              then some (true, 0)
              else do m ← d (o + 2); some (if is_message_type m then (true, m) else (false, 0))
          | false ↦ do length ← d (o + 1); scan n d (o + length + 2) (left - (length + 2))
        ]
      ]
    ]
]

-- The cookie, the big endian number 0x63825363, and the options behind it.
unfoldable pub check_cookie : Mapped → (size : ℕ) → Option (Bool × ℕ)
check_cookie d size = do
  c0 ← d 236
  c1 ← d 237
  c2 ← d 238
  c3 ← d 239
  if not (c0 == 0x63 && c1 == 0x82 && c2 == 0x53 && c3 == 0x63)
      then some (false, 0)
      else if ltb (size + 4 - 236) 1
      then some (true, 0)
      else do
        first ← d 240
        if first == 255 then some (false, 0) else scan (size + 4 - 236) d 240 (size + 4 - 236)

-- RTNetIPv4IsDHCPValid with a pointer for the message type. `size` is the number of bytes that are
-- valid; the flags are two bytes, big endian, of which the highest bit is allowed.
unfoldable pub is_dhcp_valid : Mapped → (size : ℕ) → Option (Bool × ℕ)
is_dhcp_valid d size = if ltb size 1 then some (true, 0) else do
  op ← d 0
  if not (op == 1) && not (op == 2)
      then some (false, 0)
      else if ltb size 2
      then some (true, 0)
      else do
        htype ← d 1
        if not (htype == 1) then some (false, 0) else if ltb size 3 then some (true, 0) else do
          hlen ← d 2
          if not (hlen == 6) then some (false, 0) else if ltb size 12 then some (true, 0) else do
            high ← d 10
            low ← d 11
            if not ((high * 256 + low) % 2 ^ 15 == 0)
                then some (false, 0)
                else if ltb (size + 4) 236
                then some (true, 0)
                else check_cookie d size

-- All bytes below `n` are mapped.
abbrev pub MappedBelow : Mapped → (n : ℕ) → Type 0
MappedBelow d n = (i : ℕ) → i < n → (b : ℕ) × (d i ≡ some b)

-- The type that is stored is 0 or one that RFC 2131 defines, and is stored with a valid result only.
abbrev pub Stored : Bool × ℕ → Type 0
Stored r = (r.1 ≤ 8) × (r.0 ≡ false → r.1 ≡ 0)

-- What the loop may read while bytes are left.
abbrev pub Reads : Mapped → (o left : ℕ) → Type 0
Reads d o left = 0 < left → MappedBelow d (o + left + 1)

is_message_type-Stored : (m : ℕ) → Stored (if is_message_type m then (true, m) else (false, 0))
is_message_type-Stored m = elim (Bool-cases (is_message_type m)) [
  | inl known ↦ rw known (ground (arith, known), λ f. absurd (cc f))
  | inr other ↦ rw other (omega arith, λ f. refl)
]

less_left : (d : Mapped) (o left k : ℕ) → 1 ≤ k → Reads d o left → Reads d (o + k) (left - k)
less_left d o left k pos m more i h = m (omega arith) i (omega arith)

-- One round of the loop, with bytes left.
module _ (n : ℕ) (d : Mapped) (o left code length : ℕ) (more : (left == 0) ≡ false)
    (at_code : d o ≡ some code) (at_length : d (o + 1) ≡ some length)
    (typed : 3 ≤ left → (t : ℕ) × (d (o + 2) ≡ some t)) where
  typed_Stored :
      (t : ℕ)
      → d (o + 2) ≡ some t
      → Returns Stored
          (do m ← d (o + 2); some (if is_message_type m then (true, m) else (false, 0)))
  typed_Stored t e = rw e (is_message_type-Stored t)

  round_Stored :
      Returns Stored (scan n d (o + 1) (left - 1))
      → Returns Stored (scan n d (o + length + 2) (left - (length + 2)))
      → Returns Stored (scan (suc n) d o left)
  unfolding scan
  round_Stored pad skip =
      rw (more, scan, at_code)
        (elim (Bool-cases (code == 255)) [
          | inl ends ↦ rw (ends, Returns, ◌>>=◌) (omega arith, λ f. refl)
          | inr goes ↦
              rw (goes, Returns, ◌>>=◌)
                (elim (Bool-cases (code == 0)) [
                  | inl pads ↦ rw (pads, Returns, ◌>>=◌) pad
                  | inr option ↦
                      rw (option, Returns, ◌>>=◌)
                        (elim (Bool-cases (code == 53)) [
                          | inl types ↦
                              rw (types, Returns, ◌>>=◌)
                                (if_intro (Returns Stored) (ltb left 3) _ _
                                  (λ short. (omega arith, λ f. refl))
                                  (λ long.
                                    let found = typed (ground (arith, long)) in
                                    typed_Stored found.0 found.1))
                          | inr others ↦ rw (others, at_length, Returns, ◌>>=◌) skip
                        ])
                ])
        ])

-- The loop ends within its rounds, and reads one byte behind those that are left at most.
scan-Stored :
    (n : ℕ) (d : Mapped) (o left : ℕ) → left ≤ n → Reads d o left → Returns Stored (scan n d o left)
unfolding scan
scan-Stored zero d o left h m =
    let e : (left == 0) ≡ true = ground (arith, h) in rw (e, scan) (omega arith, λ f. refl)
scan-Stored (suc n) d o left h m = elim (Bool-cases (left == 0)) [
  | inl end ↦ rw (end, scan) (omega arith, λ f. refl)
  | inr more ↦
      let some_left : 0 < left = ground (arith, more) in
      let (code, at_code) = m some_left o (omega arith) in
      let (length, at_length) = m some_left (o + 1) (omega arith) in
      let next : o + (length + 2) ≡ o + length + 2 = omega arith in
      round_Stored n d o left code length more at_code at_length
        (λ long. m some_left (o + 2) (omega arith))
        (scan-Stored n d (o + 1) (left - 1) (omega arith) (less_left d o left 1 (omega arith) m))
        (scan-Stored n d (o + length + 2) (left - (length + 2)) (omega arith) (
          subst (λ j. Reads d j (left - (length + 2))) next
            (less_left d o left (length + 2) (omega arith) m)))
]

-- A mapped byte is read.
read_Stored :
    (d : Mapped) (i : ℕ) (f : ℕ → Option (Bool × ℕ))
    → ((b : ℕ) × (d i ≡ some b))
    → ((b : ℕ) → Returns Stored (f b))
    → Returns Stored (d i >>= f)
read_Stored d i f (b, e) h = rw e (h b)

refused_Stored : Stored (false, 0)
refused_Stored = (omega arith, λ f. refl)

accepted_Stored : Stored (true, 0)
accepted_Stored = (omega arith, λ f. refl)

-- Nine bytes behind the valid ones are enough for the call to end without a fault.
module _ (d : Mapped) (size : ℕ) (m : MappedBelow d (size + 9)) where
  check_cookie-Stored : 232 ≤ size → Returns Stored (check_cookie d size)
  unfolding check_cookie
  check_cookie-Stored h = read_Stored d 236 _ (m 236 (omega arith)) (λ c0.
      read_Stored d 237 _ (m 237 (omega arith)) (λ c1.
        read_Stored d 238 _ (m 238 (omega arith)) (λ c2.
          read_Stored d 239 _ (m 239 (omega arith)) (λ c3.
            if_intro (Returns Stored) (not (c0 == 0x63 && c1 == 0x82 && c2 == 0x53 && c3 == 0x63)) _
              _ (λ _. refused_Stored)
              (λ _.
                if_intro (Returns Stored) (ltb (size + 4 - 236) 1) _ _ (λ _. accepted_Stored)
                  (λ left.
                    let some_left : 233 ≤ size = ground (arith, left) in
                    read_Stored d 240 _ (m 240 (omega arith)) (λ first.
                      if_intro (Returns Stored) (first == 255) _ _ (λ _. refused_Stored)
                        (λ _.
                          scan-Stored (size + 4 - 236) d 240 (size + 4 - 236) (omega arith)
                            (λ p i k. m i (omega arith))))))))))

  -- RTNetIPv4IsDHCPValid ends, and stores no message type but one of RFC 2131 and with a valid
  -- result only, if the nine bytes behind the valid ones can be read as well.
  pub is_dhcp_valid-Stored : Returns Stored (is_dhcp_valid d size)
  unfolding is_dhcp_valid
  is_dhcp_valid-Stored =
      if_intro (Returns Stored) (ltb size 1) _ _ (λ _. accepted_Stored)
        (λ _. read_Stored d 0 _ (m 0 (omega arith)) (λ op.
          if_intro (Returns Stored) (not (op == 1) && not (op == 2)) _ _ (λ _. refused_Stored)
            (λ _.
              if_intro (Returns Stored) (ltb size 2) _ _ (λ _. accepted_Stored)
                (λ _. read_Stored d 1 _ (m 1 (omega arith)) (λ htype.
                  if_intro (Returns Stored) (not (htype == 1)) _ _ (λ _. refused_Stored)
                    (λ _.
                      if_intro (Returns Stored) (ltb size 3) _ _ (λ _. accepted_Stored)
                        (λ _. read_Stored d 2 _ (m 2 (omega arith)) (λ hlen.
                          if_intro (Returns Stored) (not (hlen == 6)) _ _ (λ _. refused_Stored)
                            (λ _.
                              if_intro (Returns Stored) (ltb size 12) _ _ (λ _. accepted_Stored)
                                (λ long.
                                  let twelve : 12 ≤ size = ground (arith, long) in
                                  read_Stored d 10 _ (m 10 (omega arith)) (λ high.
                                    read_Stored d 11 _ (m 11 (omega arith)) (λ low.
                                      if_intro (Returns Stored)
                                        (not ((high * 256 + low) % 2 ^ 15 == 0)) _ _
                                        (λ _. refused_Stored)
                                        (λ _.
                                          if_intro (Returns Stored) (ltb (size + 4) 236) _ _
                                            (λ _. accepted_Stored)
                                            (λ far.
                                              check_cookie-Stored
                                                (ground (arith, far))))))))))))))))

-- The cookie is read where its last byte is not mapped.
check_cookie-fault : (d : Mapped) (size : ℕ) → d 239 ≡ none → check_cookie d size ≡ none
unfolding check_cookie
check_cookie-fault d size e = elim (Option-cases (d 236)) [
  | inl out ↦ rw out refl
  | inr (c0, e0) ↦ rw e0 (elim (Option-cases (d 237)) [
    | inl out ↦ rw out refl
    | inr (c1, e1) ↦
        rw e1
          (elim (Option-cases (d 238)) [ inl out ↦ rw out refl | inr (c2, e2) ↦ rw (e2, e) refl ])
  ])
]

-- Of a BOOTREQUEST for Ethernet with six address bytes and no flags that ends up to eight bytes before the end of the cookie, RTNetIPv4IsDHCPValid reads
-- the cookie beyond the bytes that are valid.
pub is_dhcp_valid-overrun :
    (d : Mapped) (size : ℕ)
    → 232 ≤ size
    → size < 240
    → ((i : ℕ) → size ≤ i → d i ≡ none)
    → (d 0 ≡ some 1) × (d 1 ≡ some 1) × (d 2 ≡ some 6) × (d 10 ≡ some 0) × (d 11 ≡ some 0)
    → is_dhcp_valid d size ≡ none
unfolding is_dhcp_valid
is_dhcp_valid-overrun d size low high out (op, htype, hlen, flags_high, flags_low) =
    let s1 : ltb size 1 ≡ false = ground arith in
    let s2 : ltb size 2 ≡ false = ground arith in
    let s3 : ltb size 3 ≡ false = ground arith in
    let s12 : ltb size 12 ≡ false = ground arith in
    let s236 : ltb (size + 4) 236 ≡ false = ground arith in
    rw (s1, op, s2, htype, s3, hlen, s12, flags_high, flags_low, s236)
      (check_cookie-fault d size (out 239 (omega arith)))
