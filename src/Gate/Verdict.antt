-- ===== src/Gate/Verdict.antt =====
-- ghostbro-ebpf/src/main.rs: what passes and what is dropped.
use ghostbro.Base.{
  ℕ, ◌+◌, ◌-◌, ◌*◌, ◌%◌, ◌^◌, ◌≤◌, ◌<◌, ◌≡◌, ◌≢◌, ◌↔◌, ◌⊎◌, inl, inr, refl, sym, ap, ◌∙◌, some,
  Bool, true, false, arith, ltb, lt→ltb, le→ltb, if◌then◌else◌, nat_beq, bit_and, Option-cases,
  Bool-cases,
}
use ghostbro.LruMap.{LruMap}
use ghostbro.Gate.{
  Frame, Helpers, AllowEntry, RateState, State, xdp_pass, xdp_drop, has_bytes, read_u8, read_be_u16,
  read_be_u32, load_config, is_allowed, handle_tcp, offer, handle_udp, dispatch, try_ghostbro_xdp,
  ghostbro_xdp, verdict,
}
use ghostbro.Gate.Memory.{InMemory, has_bytes-le, read_be_u16_succeeds}

-- An IPv4 packet: its protocol, the length of its header and its source.
pub record IsIpv4 (f : Frame) (proto ihl src : ℕ) : Type 0 where
  pub ethertype : read_be_u16 f 12 ≡ some 0x0800
  pub header : has_bytes f 14 20 ≡ true
  pub vihl : ℕ
  pub version_length : read_u8 f 14 ≡ some vihl
  pub header_length : bit_and vihl 0x0f * 4 ≡ ihl
  pub long : 20 ≤ ihl
  pub short : ihl ≤ 60
  pub protocol : read_u8 f 23 ≡ some proto
  pub source : read_be_u32 f 26 ≡ some src

pass→true : (b : Bool) → (if b then xdp_pass else xdp_drop) ≡ xdp_pass → b ≡ true
pass→true true e = refl
pass→true false e = absurd (cc e)

module _ (am : LruMap AllowEntry) (rm : LruMap RateState) where
  ipv4-dispatch :
      (h : Helpers) (f : Frame) (proto ihl src : ℕ) (s : State am rm)
      → IsIpv4 f proto ihl src
      → try_ghostbro_xdp am rm h f s ≡ dispatch am rm h f proto (14 + ihl) src s
  unfolding try_ghostbro_xdp
  ipv4-dispatch h f proto ihl src s p =
      let in_word : bit_and p.vihl 0x0f * 4 % 2 ^ 64 ≡ ihl =
        omega (arith, p.header_length, p.short) in
      rw (
        p.ethertype,
        p.header,
        p.version_length,
        in_word,
        le→ltb ihl 20 p.long,
        p.protocol,
        p.source,
        lt→ltb (14 + ihl) (2 ^ 64) (omega (arith, p.short)),
      )

  -- An address is admitted while it has an entry that has not expired.
  abbrev pub HasEntry : Helpers → State am rm → ℕ → Type 0
  HasEntry h s src = (e : AllowEntry) × (am.get s.allow src ≡ some e) × (h.now_allow < e.expiry_ns)

  is_allowed_iff :
      (h : Helpers) (src : ℕ) (s : State am rm)
      → ((is_allowed am rm h src s).0 ≡ true) ↔ HasEntry h s src
  unfolding is_allowed
  is_allowed_iff h src s = elim (Option-cases (am.get s.allow src)) [
    | inl absent ↦ (λ e. absurd (cc (rw (absent, is_allowed) at e)), λ x. absurd (cc (absent, x.1)))
    | inr (entry, present) ↦
        (λ e. (entry, present, ground (arith, e, present)), λ x. ground (arith, x.1, x.2, present))
  ]

  -- A TCP packet for the configured proxy port, in a frame that holds the 20 bytes of the TCP header.
  tcp_whole :
      (h : Helpers) (f : Frame) (ihl src : ℕ) (s : State am rm)
      → IsIpv4 f 6 ihl src
      → has_bytes f (14 + ihl) 20 ≡ true
      → read_be_u16 f (16 + ihl) ≡ some (load_config am rm s).proxy_port
      → (ghostbro_xdp am rm h f s).0 ≡ (verdict am rm (is_allowed am rm h src s)).0
  unfolding ghostbro_xdp dispatch handle_tcp
  tcp_whole h f ihl src s p room port =
      let place : 14 + ihl + 2 ≡ 16 + ihl = omega arith in
      let in_word : ltb (14 + ihl + 2) (2 ^ 64) ≡ true =
        lt→ltb (14 + ihl + 2) (2 ^ 64) (omega (arith, p.short)) in
      let same_port : nat_beq (load_config am rm s).proxy_port (load_config am rm s).proxy_port
          ≡ true =
        ground arith in
      rw (ipv4-dispatch h f 6 ihl src s p, room, in_word, place, port, same_port)

  -- One that does not hold them passes, whatever its source.
  tcp_cut :
      (h : Helpers) (f : Frame) (ihl src : ℕ) (s : State am rm)
      → IsIpv4 f 6 ihl src
      → has_bytes f (14 + ihl) 20 ≡ false
      → (ghostbro_xdp am rm h f s).0 ≡ xdp_pass
  unfolding ghostbro_xdp dispatch handle_tcp
  tcp_cut h f ihl src s p short = rw (ipv4-dispatch h f 6 ihl src s p, short)

  -- A TCP packet for the configured proxy port, in a frame that holds the IPv4 header, passes exactly when
  -- its source has an entry that has not expired or the frame does not hold the 20 bytes of the TCP header.
  pub tcp_gate :
      (h : Helpers) (f : Frame) (ihl src : ℕ) (s : State am rm)
      → IsIpv4 f 6 ihl src
      → read_be_u16 f (16 + ihl) ≡ some (load_config am rm s).proxy_port
      → ((ghostbro_xdp am rm h f s).0 ≡ xdp_pass)
        ↔ (HasEntry h s src ⊎ (has_bytes f (14 + ihl) 20 ≡ false))
  tcp_gate h f ihl src s p port = elim (Bool-cases (has_bytes f (14 + ihl) 20)) [
    | inl room ↦
        let handled = tcp_whole h f ihl src s p room port in
        let decided = is_allowed_iff h src s in
        (
          λ e. inl (decided.0 (pass→true (is_allowed am rm h src s).0 (sym handled ∙ e))),
          λ either. elim either [
            | inl x ↦ handled ∙ ap (λ b. if b then xdp_pass else xdp_drop) (decided.1 x)
            | inr short ↦ absurd (cc (room, short))
          ],
        )
    | inr short ↦ (λ e. inr short, λ either. tcp_cut h f ihl src s p short)
  ]

  -- What follows the length field drops the datagram on every branch.
  udp_addressed :
      (h : Helpers) (f : Frame) (at src port limit : ℕ) (s : State am rm)
      → InMemory f
      → at ≤ 74
      → has_bytes f at 8 ≡ true
      → read_be_u16 f (at + 2) ≡ some port
      → (r : State am rm) × (handle_udp am rm h f at src port limit s ≡ some (xdp_drop, r))
  unfolding handle_udp
  udp_addressed h f at src port limit s inside small room dst =
      let there = has_bytes-le f at 8 inside room in
      let (src_port, from_source) = read_be_u16_succeeds f at inside (omega arith) in
      let (udp_len, from_len) = read_be_u16_succeeds f (at + 4) inside (omega arith) in
      let in2 : ltb (at + 2) (2 ^ 64) ≡ true = lt→ltb (at + 2) (2 ^ 64) (omega arith) in
      let in4 : ltb (at + 4) (2 ^ 64) ≡ true = lt→ltb (at + 4) (2 ^ 64) (omega arith) in
      let in8 : ltb (at + 8) (2 ^ 64) ≡ true = lt→ltb (at + 8) (2 ^ 64) (omega arith) in
      let same_port : nat_beq port port ≡ true = ground arith in
      elim (Bool-cases (ltb udp_len 8)) [
        | inl short ↦ (s, rw (room, in2, dst, same_port, from_source, in4, from_len, short))
        | inr long ↦ elim (Bool-cases (has_bytes f (at + 8) (udp_len - 8))) [
          | inl whole ↦ (
            offer am rm h (at + 8) (udp_len - 8) src src_port limit s,
            rw (room, in2, dst, same_port, from_source, in4, from_len, long, in8, whole),
          )
          | inr cut ↦
              (s, rw (room, in2, dst, same_port, from_source, in4, from_len, long, in8, cut))
        ]
      ]

  udp_whole :
      (h : Helpers) (f : Frame) (ihl src : ℕ) (s : State am rm)
      → InMemory f
      → IsIpv4 f 17 ihl src
      → bit_and (load_config am rm s).spa_mode 1 ≢ 0
      → has_bytes f (14 + ihl) 8 ≡ true
      → read_be_u16 f (16 + ihl) ≡ some (load_config am rm s).spa_port
      → (ghostbro_xdp am rm h f s).0 ≡ xdp_drop
  unfolding ghostbro_xdp dispatch handle_udp
  udp_whole h f ihl src s inside p mode room port =
      let config = load_config am rm s in
      let place : 14 + ihl + 2 ≡ 16 + ihl = omega arith in
      let mode_on : nat_beq (bit_and config.spa_mode 1) 0 ≡ false = ground (arith, mode) in
      let (r, dropped) =
        udp_addressed h f (14 + ihl) src config.spa_port config.rate_limit_per_minute s inside
          (omega (arith, p.short)) room (rw (place, port)) in
      rw (ipv4-dispatch h f 17 ihl src s p, mode_on, dropped)

  udp_cut :
      (h : Helpers) (f : Frame) (ihl src : ℕ) (s : State am rm)
      → IsIpv4 f 17 ihl src
      → bit_and (load_config am rm s).spa_mode 1 ≢ 0
      → has_bytes f (14 + ihl) 8 ≡ false
      → (ghostbro_xdp am rm h f s).0 ≡ xdp_pass
  unfolding ghostbro_xdp dispatch handle_udp
  udp_cut h f ihl src s p mode short =
      let mode_on : nat_beq (bit_and (load_config am rm s).spa_mode 1) 0 ≡ false =
        ground (arith, mode) in
      rw (ipv4-dispatch h f 17 ihl src s p, mode_on, short)

  -- With UDP mode on, a UDP datagram for the configured SPA port, in a frame that ends below the last
  -- address and holds the IPv4 header, is dropped exactly when the frame holds the 8 bytes of the UDP
  -- header, whatever follows them: the sender gets no answer from which to tell the port from a
  -- filtered one.
  pub udp_silent :
      (h : Helpers) (f : Frame) (ihl src : ℕ) (s : State am rm)
      → InMemory f
      → IsIpv4 f 17 ihl src
      → bit_and (load_config am rm s).spa_mode 1 ≢ 0
      → read_be_u16 f (16 + ihl) ≡ some (load_config am rm s).spa_port
      → ((ghostbro_xdp am rm h f s).0 ≡ xdp_drop) ↔ (has_bytes f (14 + ihl) 8 ≡ true)
  udp_silent h f ihl src s inside p mode port = (
    λ e. elim (Bool-cases (has_bytes f (14 + ihl) 8)) [
      | inl room ↦ room
      | inr short ↦ absurd (cc (e, udp_cut h f ihl src s p mode short))
    ],
    λ room. udp_whole h f ihl src s inside p mode room port,
  )
