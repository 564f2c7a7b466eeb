-- ===== src/Packet/RoundTrip.antt =====
-- ghostbro-common/src/spa.rs: what a client builds, the addressed server opens and verifies.
use ghostbro.Base.{
  ℕ, ◌+◌, ◌%◌, ◌^◌, ◌≤◌, ◌<◌, ◌≡◌, refl, ap, List, ◌++◌, Bool, true, false, some, length, not,
  nat_beq, if◌then◌else◌, arith, le→ltb, take-append, length-append, length-take, All, All-append,
  All-take, bit_and, bit_or, ◌∙◌,
}
use ghostbro.Base.Bytes.{
  IsByte, to_be_bytes-IsByte, to_be_bytes, length-to_be_bytes, from_be_bytes-to_be_bytes,
}
use ghostbro.Base.Result.{ok}
use ghostbro.Protocol.{spa_flag_use_packet_source}
use ghostbro.Crypto.{Crypto, CryptoLaws}
use ghostbro.Seal.Reopen.{seal-open}
use ghostbro.Packet.{
  SpaMode, udp, https, SpaAllowIp, explicit, packet_source, SpaPacket, mode_bit, allow_ip_bit,
  ip_bytes, signed_region, signed_message, parse_inner, key_id_for_public_key, build_with_padding,
  build, random_padding_len, open_packet, verify_packet, KeyId, flags_byte,
}
use ghostbro.Packet.Layout.{parse_fields-layout, built_flags}

-- An address is four octets.
abbrev pub IsAddress : SpaAllowIp → Type 0
IsAddress (explicit ip) = (length ip ≡ 4) × All IsByte ip
IsAddress packet_source = Unit {0}

abbrev pub asks_packet_source : SpaAllowIp → Bool
asks_packet_source (explicit ip) = false
asks_packet_source packet_source = true

ip_bytes-length : (a : SpaAllowIp) → IsAddress a → length (ip_bytes a) ≡ 4
ip_bytes-length (explicit ip) h = h.0
ip_bytes-length packet_source h = refl

ip_bytes-IsByte : (a : SpaAllowIp) → IsAddress a → All IsByte (ip_bytes a)
ip_bytes-IsByte (explicit ip) h = h.1
ip_bytes-IsByte packet_source h = omega arith

flags-IsByte : (m : SpaMode) (a : SpaAllowIp) → IsByte (bit_or (mode_bit m) (allow_ip_bit a))
flags-IsByte udp (explicit ip) = omega arith
flags-IsByte udp packet_source = omega arith
flags-IsByte https (explicit ip) = omega arith
flags-IsByte https packet_source = omega arith

flags_byte_described :
    (m : SpaMode) (a : SpaAllowIp)
    → bit_or (mode_bit m) (if asks_packet_source a then spa_flag_use_packet_source else 0)
      ≡ bit_or (mode_bit m) (allow_ip_bit a)
flags_byte_described m (explicit ip) = refl
flags_byte_described m packet_source = refl

source_flag :
    (m : SpaMode) (a : SpaAllowIp)
    → not (nat_beq (bit_and (bit_or (mode_bit m) (allow_ip_bit a)) spa_flag_use_packet_source) 0)
      ≡ asks_packet_source a
source_flag udp (explicit ip) = refl
source_flag udp packet_source = refl
source_flag https (explicit ip) = refl
source_flag https packet_source = refl

module _ (c : Crypto) (laws : CryptoLaws c) (sk : List ℕ) (mode : SpaMode) (ts counter : ℕ)
    (a : SpaAllowIp) (private eph : List ℕ) where
  abbrev key : KeyId
  key = key_id_for_public_key c (c.verifying_key sk)

  abbrev flags : ℕ
  flags = bit_or (mode_bit mode) (allow_ip_bit a)

  abbrev region : List ℕ
  region = signed_region flags key ts counter (ip_bytes a)

  abbrev signature : List ℕ
  signature = c.sign sk (signed_message region (c.x25519_public eph) (c.x25519_public private))

  -- The packet that the arguments of `build` describe.
  abbrev pub described : SpaPacket
  described = record {
    mode = mode;
    use_packet_source = asks_packet_source a;
    key_id = key;
    timestamp_ms = ts;
    counter = counter;
    allow_ip = ip_bytes a;
    signature = signature;
    ephemeral_pub = c.x25519_public eph;
  }

  length-key : length key ≡ 8
  unfolding key_id_for_public_key
  length-key = omega (
    arith,
    length-take 8 (c.sha256 (c.verifying_key sk)),
    laws.length-sha256 (c.verifying_key sk),
  )

  length-inner : IsAddress a → length (region ++ signature) ≡ 95
  length-inner h =
      let ip = ip_bytes a in
      let t = to_be_bytes 8 ts in
      let n = to_be_bytes 8 counter in
      omega (
        arith,
        length-append region signature,
        length-append key (t ++ (n ++ ip)),
        length-append t (n ++ ip),
        length-append n ip,
        length-key,
        length-to_be_bytes 8 ts,
        length-to_be_bytes 8 counter,
        ip_bytes-length a h,
        laws.length-sign sk (signed_message region (c.x25519_public eph) (c.x25519_public private)),
      )

  inner-IsByte : IsAddress a → All IsByte (region ++ signature)
  unfolding key_id_for_public_key
  inner-IsByte h =
      let message = signed_message region (c.x25519_public eph) (c.x25519_public private) in
      let t = to_be_bytes 8 ts in
      let n = to_be_bytes 8 counter in
      let numbers =
        All-append IsByte t (n ++ ip_bytes a) (to_be_bytes-IsByte 8 ts)
          (All-append IsByte n (ip_bytes a) (to_be_bytes-IsByte 8 counter) (ip_bytes-IsByte a h)) in
      let key_bytes =
        All-take IsByte 8 (c.sha256 (c.verifying_key sk))
          (laws.sha256-IsByte (c.verifying_key sk)) in
      let fields = All-append IsByte key (t ++ (n ++ ip_bytes a)) key_bytes numbers in
      All-append IsByte region signature (omega arith, (omega arith, (flags-IsByte mode a, fields)))
        (laws.sign-IsByte sk message)

  parse_described :
      IsAddress a
      → ts < 2 ^ 64
      → counter < 2 ^ 64
      → parse_inner
          (record { plaintext = region ++ signature; ephemeral_pub = c.x25519_public eph })
        ≡ ok described
  unfolding parse_inner
  parse_described h hts hc =
      rw (length-inner h, (built_flags mode a).0)
        (ap ok (
          parse_fields-layout key (to_be_bytes 8 ts) (to_be_bytes 8 counter) (ip_bytes a) signature
            length-key (length-to_be_bytes 8 ts) (length-to_be_bytes 8 counter)
            (ip_bytes-length a h) (laws.length-sign sk _) flags 0x47 0x50 (c.x25519_public eph)
          ∙ rw (
            (built_flags mode a).1,
            source_flag mode a,
            from_be_bytes-to_be_bytes 8 ts (omega arith),
            from_be_bytes-to_be_bytes 8 counter (omega arith),
          )))

  verify_described :
      verify_packet c described (c.verifying_key sk) (c.x25519_public private) ≡ ok tt
  unfolding verify_packet
  verify_described =
      let same : flags_byte described ≡ flags = flags_byte_described mode a in
      rw (
        same,
        laws.verify-sign sk (signed_message region (c.x25519_public eph) (c.x25519_public private)),
      )

  -- Whatever a client builds for a server, for an address of four bytes and 64-bit numbers, with
  -- up to 33 bytes of padding, that server opens into the packet that was described, and its
  -- signature verifies.
  pub build-open :
      (padding : List ℕ)
      → IsAddress a
      → ts < 2 ^ 64
      → counter < 2 ^ 64
      → length padding ≤ 33
      → (w : List ℕ) × (build_with_padding c sk mode ts counter a padding
            (c.x25519_public private)
            eph
          ≡ some w)
        × (length w ≡ 143 + length padding)
        × (open_packet c w private ≡ ok described)
        × (verify_packet c described (c.verifying_key sk) (c.x25519_public private) ≡ ok tt)
  unfolding build_with_padding open_packet
  build-open padding h hts hc hp =
      let (s, sealed, len, opened) =
        seal-open c laws (region ++ signature) private eph (inner-IsByte h) in
      let core : length s ≡ 143 = omega (arith, length-inner h) in
      let total : length (s ++ padding) ≡ 143 + length padding =
        omega (arith, length-append s padding) in
      (
        s ++ padding,
        rw sealed,
        total,
        rw
            (
              le→ltb (length (s ++ padding)) 143 (omega arith),
              le→ltb 176 (length (s ++ padding)) (omega arith),
              take-append 143 s padding core,
              opened,
            )
            (parse_described h hts hc),
        verify_described,
      )

  -- The same with the random padding of `build`, where the generator fills a buffer of any
  -- length: the packet is 143 to 176 bytes long, and opens into the packet that was described.
  pub build_in_window :
      (random : ℕ) (fill : ℕ → List ℕ)
      → ((n : ℕ) → length (fill n) ≡ n)
      → IsAddress a
      → ts < 2 ^ 64
      → counter < 2 ^ 64
      → (w : List ℕ) × (build c sk mode ts counter a (c.x25519_public private) random fill eph
          ≡ some w)
        × (143 ≤ length w)
        × (length w ≤ 176)
        × (open_packet c w private ≡ ok described)
  unfolding build random_padding_len
  build_in_window random fill fills h hts hc =
      let (w, built, len, opened, verified) =
        build-open (fill (random % 34)) h hts hc (omega (arith, fills (random % 34))) in
      (w, built, omega (arith, fills (random % 34)), omega (arith, fills (random % 34)), opened)
