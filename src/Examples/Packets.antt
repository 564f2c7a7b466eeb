-- ===== src/Examples/Packets.antt =====
-- ghostbro-common: one packet, built by a client, opened by the server.
use ghostbro.Base.{
  ℕ, zero, suc, ◌+◌, ◌≤◌, ◌≡◌, refl, Option, none, some, List, [], ◌∷◌, length, take, drop, arith,
  ap, replicate,
}
use ghostbro.Base.Result.{ok}
use ghostbro.Base.Bytes.{to_be_bytes, from_be_bytes, be_value}
use ghostbro.Seal.{derive_key_nonce, Opened, open_seal, seal_with_ephemeral}
use ghostbro.Seal.Reopen.{seal-open}
use ghostbro.Keys.{key_id_from_hex, key_id_hex}
use ghostbro.Keys.Hex.{key_id_from_hex-hex}
use ghostbro.Packet.{
  SpaPacket, udp, packet_source, build_with_padding, build, open_packet, verify_packet,
  signed_region, flags_byte, read_array, parse_inner, parse_fields, mode_from_flags,
  key_id_for_public_key,
}
use ghostbro.Packet.RoundTrip.{described, build-open, build_in_window}
use ghostbro.Packet.Canonical.{open-signed_region}
use ghostbro.Examples.Parts.{toy_crypto, toy_crypto_laws, fit}

abbrev pub server_private : List ℕ
server_private = 1 ∷ []

abbrev pub client_key : List ℕ
client_key = 2 ∷ []

abbrev pub ephemeral : List ℕ
ephemeral = 3 ∷ []

-- A packet of the client at the time 1000 with the counter 7, for the address it comes from.
abbrev pub packet : SpaPacket
packet =
    described toy_crypto toy_crypto_laws client_key udp 1000 7 packet_source server_private
      ephemeral

abbrev pub bytes_or_none : Option (List ℕ) → List ℕ
bytes_or_none none = []
bytes_or_none (some w) = w

abbrev pub wire : List ℕ
wire = bytes_or_none (
    build_with_padding toy_crypto client_key udp 1000 7 packet_source []
      (toy_crypto.x25519_public server_private) ephemeral)

pub wire-opens : open_packet toy_crypto wire server_private ≡ ok packet
unfolding build_with_padding seal_with_ephemeral derive_key_nonce open_packet open_seal parse_inner
    parse_fields mode_from_flags read_array key_id_for_public_key fit to_be_bytes from_be_bytes
    be_value
wire-opens = refl

packet_in_window : length wire ≡ 143
unfolding build_with_padding seal_with_ephemeral derive_key_nonce key_id_for_public_key fit
    to_be_bytes
packet_in_window = refl

seal-open_example :
    (w : List ℕ) × (seal_with_ephemeral toy_crypto
        (5 ∷ [])
        (toy_crypto.x25519_public server_private)
        ephemeral
      ≡ some w)
    × (length w ≡ 1 + 48)
    × (open_seal toy_crypto w server_private
        ≡ some (record { plaintext = 5 ∷ []; ephemeral_pub = toy_crypto.x25519_public ephemeral }))
seal-open_example =
    seal-open toy_crypto toy_crypto_laws (5 ∷ []) server_private ephemeral (omega arith)

build-open_example :
    (w : List ℕ) × (build_with_padding toy_crypto client_key udp 1000 7 packet_source
        (9 ∷ 9 ∷ [])
        (toy_crypto.x25519_public server_private)
        ephemeral
      ≡ some w)
    × (length w ≡ 143 + 2)
    × (open_packet toy_crypto w server_private ≡ ok packet)
    × (verify_packet toy_crypto packet client_key (toy_crypto.x25519_public server_private) ≡ ok tt)
build-open_example =
    build-open toy_crypto toy_crypto_laws client_key udp 1000 7 packet_source server_private
      ephemeral (9 ∷ 9 ∷ []) tt (omega arith) (omega arith) (omega arith)

length-zeros : (n : ℕ) → length {A = ℕ} (replicate n 0) ≡ n
length-zeros zero = refl
length-zeros (suc n) = ap suc (length-zeros n)

build_in_window_example :
    (w : List ℕ) × (build toy_crypto client_key udp 1000 7 packet_source
        (toy_crypto.x25519_public server_private)
        75
        (λ n. replicate n 0)
        ephemeral
      ≡ some w)
    × (143 ≤ length w)
    × (length w ≤ 176)
    × (open_packet toy_crypto w server_private ≡ ok packet)
build_in_window_example =
    build_in_window toy_crypto toy_crypto_laws client_key udp 1000 7 packet_source server_private
      ephemeral 75 (λ n. replicate n 0) length-zeros tt (omega arith) (omega arith)

open-signed_region_example :
    (o : Opened) × (143 ≤ length wire)
    × (length wire ≤ 176)
    × (open_seal toy_crypto (take 143 wire) server_private ≡ some o)
    × (packet.ephemeral_pub ≡ o.ephemeral_pub)
    × (signed_region
          (flags_byte packet)
          packet.key_id
          packet.timestamp_ms
          packet.counter
          packet.allow_ip
        ≡ take 31 o.plaintext)
    × (packet.signature ≡ drop 31 o.plaintext)
open-signed_region_example =
    open-signed_region toy_crypto toy_crypto_laws wire server_private packet wire-opens

key_id_from_hex-hex_example :
    key_id_from_hex (key_id_hex (0 ∷ 1 ∷ 2 ∷ 16 ∷ 171 ∷ 205 ∷ 239 ∷ 255 ∷ []))
    ≡ some (0 ∷ 1 ∷ 2 ∷ 16 ∷ 171 ∷ 205 ∷ 239 ∷ 255 ∷ [])
key_id_from_hex-hex_example =
    key_id_from_hex-hex (0 ∷ 1 ∷ 2 ∷ 16 ∷ 171 ∷ 205 ∷ 239 ∷ 255 ∷ []) refl (omega arith)
