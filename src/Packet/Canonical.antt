-- ===== src/Packet/Canonical.antt =====
-- ghostbro-common/src/spa.rs: the bytes whose signature is checked are the bytes that arrived.
use ghostbro.Base.{
  ℕ, suc, ◌+◌, ◌≤◌, ◌<◌, ◌≡◌, refl, List, [], ◌∷◌, ◌++◌, if◌then◌else◌, ltb, false, ◌||◌, some,
  length, take, drop, get_or, arith, nat_beq, bytes_beq_iff, bit_and, All, All-take, All-drop,
  length-take, length-drop, take_all,
}
use ghostbro.Base.Bytes.{IsByte, to_be_bytes, from_be_bytes, to_be_bytes-from_be_bytes}
use ghostbro.Base.Result.{ok, fail_if, ok_or, >>=-eq-ok, fail_if-eq-ok, ok_or-eq-ok}
use ghostbro.Crypto.{Crypto, CryptoLaws}
use ghostbro.Protocol.{version_prefix, spa_flag_https, spa_reserved_flags}
use ghostbro.Seal.{Opened, open_seal}
use ghostbro.Seal.Reopen.{open_seal-IsByte}
use ghostbro.Packet.{
  SpaPacket, signed_region, flags_byte, parse_fields, parse_inner, open_packet, mode_bit,
  mode_from_flags,
}
use mathlib.Core.List.{append_assoc}
use ghostbro.Packet.Layout.{rebuilt_flags, drop-drop, take-add}

-- What an accepted record has passed.
parse_inner-checks :
    (o : Opened) (p : SpaPacket)
    → parse_inner o ≡ ok p
    → (length o.plaintext ≡ 95)
      × (take 2 o.plaintext ≡ version_prefix)
      × (bit_and (get_or o.plaintext 2 0) spa_reserved_flags ≡ 0)
      × (parse_fields (get_or o.plaintext 2 0) o.plaintext o.ephemeral_pub ≡ p)
unfolding parse_inner
parse_inner-checks o p e = ground (arith, bytes_beq_iff (take 2 o.plaintext) version_prefix)

take_two :
    (xs : List ℕ) (n : ℕ)
    → length xs ≡ suc (suc (suc n))
    → take 3 xs ≡ take 2 xs ++ get_or xs 2 0 ∷ []
take_two [] n h = absurd (omega arith)
take_two (x ∷ []) n h = absurd (omega arith)
take_two (x ∷ y ∷ []) n h = absurd (omega arith)
take_two (x ∷ y ∷ z ∷ xs) n h = refl

get_or-IsByte : (xs : List ℕ) → All IsByte xs → get_or xs 2 0 < 256
get_or-IsByte [] h = omega arith
get_or-IsByte (x ∷ []) h = omega arith
get_or-IsByte (x ∷ y ∷ []) h = omega arith
get_or-IsByte (x ∷ y ∷ z ∷ xs) h = h.1.1.0

mode_bit-from_flags :
    (f : ℕ)
    → mode_bit (mode_from_flags f)
      ≡ (if nat_beq (bit_and f spa_flag_https) 0 then 0 else spa_flag_https)
unfolding mode_from_flags
mode_bit-from_flags f = ground arith

module _ (inner : List ℕ) (size : length inner ≡ 95) (bytes : All IsByte inner) where
  abbrev f : ℕ
  f = get_or inner 2 0

  -- A field of `n` bytes at an offset, read as a number and written again.
  rewrite_number :
      (offset : ℕ)
      → offset + 8 ≤ 95
      → to_be_bytes 8 (from_be_bytes (take 8 (drop offset inner))) ≡ take 8 (drop offset inner)
  rewrite_number offset h =
      to_be_bytes-from_be_bytes 8 (take 8 (drop offset inner))
        (All-take IsByte 8 _ (All-drop IsByte offset inner bytes))
        (omega (arith, length-take 8 (drop offset inner), length-drop offset inner))

  region_parts :
      take 31 inner
      ≡ take 2 inner
        ++ f
          ∷ (take 8 (drop 3 inner)
              ++ (take 8 (drop 11 inner) ++ (take 8 (drop 19 inner) ++ take 4 (drop 27 inner))))
  region_parts = rw (
    take-add 3 28 inner,
    take-add 8 20 (drop 3 inner),
    drop-drop 3 8 inner,
    take-add 8 12 (drop 11 inner),
    drop-drop 11 8 inner,
    take-add 8 4 (drop 19 inner),
    drop-drop 19 8 inner,
    take_two inner 92 size,
    append_assoc,
  )

  parsed_region :
      (eph : List ℕ)
      → take 2 inner ≡ version_prefix
      → bit_and f spa_reserved_flags ≡ 0
      → let p = parse_fields f inner eph in
        signed_region (flags_byte p) p.key_id p.timestamp_ms p.counter p.allow_ip ≡ take 31 inner
  unfolding parse_fields
  parsed_region eph v r =
      let flags : flags_byte (parse_fields f inner eph) ≡ f =
        rw (mode_bit-from_flags f) (rebuilt_flags f (get_or-IsByte inner bytes) r) in
      rw (flags, rewrite_number 11 (omega arith), rewrite_number 19 (omega arith), region_parts, v)

  parsed_signature : (eph : List ℕ) → (parse_fields f inner eph).signature ≡ drop 31 inner
  unfolding parse_fields
  parsed_signature eph = take_all 64 (drop 31 inner) (omega (arith, length-drop 31 inner))

in_window : (n : ℕ) → (ltb n 143 || ltb 176 n) ≡ false → (143 ≤ n) × (n ≤ 176)
in_window n h = ground arith

-- The checks before the record is parsed.
pub open_packet-opens :
    (c : Crypto) (wire private : List ℕ) (p : SpaPacket)
    → open_packet c wire private ≡ ok p
    → (o : Opened) × (143 ≤ length wire)
      × (length wire ≤ 176)
      × (open_seal c (take 143 wire) private ≡ some o)
      × (parse_inner o ≡ ok p)
unfolding open_packet
open_packet-opens c wire private p e =
    let (_, sized, rest) = >>=-eq-ok (fail_if _ _) _ e in
    let (o, unsealed, parsed) = >>=-eq-ok (ok_or (open_seal c (take 143 wire) private) _) _ rest in
    let (low, high) = in_window (length wire) (fail_if-eq-ok _ _ sized) in
    (o, low, high, ok_or-eq-ok _ _ unsealed, parsed)

module _ (c : Crypto) (laws : CryptoLaws c) where
  -- An opened packet came in the size window and from a seal that this server could open. The region
  -- that `verify` rebuilds from its fields is, byte for byte, the first 31 bytes of the sealed record;
  -- the signature it checks is the other 64. So no two records stand behind one packet.
  pub open-signed_region :
      (wire private : List ℕ) (p : SpaPacket)
      → open_packet c wire private ≡ ok p
      → (o : Opened) × (143 ≤ length wire)
        × (length wire ≤ 176)
        × (open_seal c (take 143 wire) private ≡ some o)
        × (p.ephemeral_pub ≡ o.ephemeral_pub)
        × (signed_region (flags_byte p) p.key_id p.timestamp_ms p.counter p.allow_ip
            ≡ take 31 o.plaintext)
        × (p.signature ≡ drop 31 o.plaintext)
  open-signed_region wire private p e =
      let (o, low, high, opened, parsed) = open_packet-opens c wire private p e in
      let (size, version, reserved, fields) = parse_inner-checks o p parsed in
      let bytes = open_seal-IsByte c laws (take 143 wire) private o opened in
      (
        o,
        low,
        high,
        opened,
        rw (← fields) (unfold parse_fields in refl),
        rw (← fields) (parsed_region o.plaintext size bytes o.ephemeral_pub version reserved),
        rw (← fields) (parsed_signature o.plaintext size bytes o.ephemeral_pub),
      )

  -- The key id of an opened packet is eight bytes.
  pub open-key_id :
      (wire private : List ℕ) (p : SpaPacket)
      → open_packet c wire private ≡ ok p
      → (length p.key_id ≡ 8) × All IsByte p.key_id
  open-key_id wire private p e =
      let (o, low, high, opened, parsed) = open_packet-opens c wire private p e in
      let (size, version, reserved, fields) = parse_inner-checks o p parsed in
      let bytes = open_seal-IsByte c laws (take 143 wire) private o opened in
      rw (← fields) (
        unfold parse_fields in
        (
          omega (arith, size, length-take 8 (drop 3 o.plaintext), length-drop 3 o.plaintext),
          All-take IsByte 8 _ (All-drop IsByte 3 o.plaintext bytes),
        ))
