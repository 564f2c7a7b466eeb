-- ===== src/Packet.antt =====
-- ghostbro-common/src/spa.rs: building, opening and verifying a single-packet authorization (SPA).
-- What the code draws from the operating system's generator is an argument: the padding, its length
-- and the ephemeral secret. An IPv4 address is its four octets. An array field is a list, its length
-- a matter of the theorems.
pub mod Layout
pub mod RoundTrip
pub mod Canonical
use ghostbro.Base.{
  ℕ, ◌+◌, ◌%◌, List, ◌∷◌, ◌++◌, Option, Bool, not, ◌||◌, if◌then◌else◌, ltb, nat_beq, bytes_beq,
  length, take, drop, get_or, replicate, bit_and, bit_or,
}
use ghostbro.Base.Bytes.{to_be_bytes, from_be_bytes}
use ghostbro.Base.Result.{Result, ok, err, ◌>>=◌, ◌>>◌, fail_if, ok_or}
use ghostbro.Crypto.{Crypto}
use ghostbro.Protocol.{
  version_prefix, key_id_len, timestamp_len, counter_len, allow_ip_len, signature_len,
  spa_inner_len, spa_sealed_core_len, spa_min_len, spa_max_len, spa_max_padding, spa_flag_https,
  spa_flag_use_packet_source, spa_reserved_flags,
}
use ghostbro.Seal.{Opened, seal_with_ephemeral, open_seal, ephemeral_public}
use mathlib.Core.Option

pub data SpaMode : Type 0 where
  udp https : SpaMode

abbrev pub Ipv4Addr : Type 0
Ipv4Addr = List ℕ

abbrev pub KeyId : Type 0
KeyId = List ℕ

abbrev pub mode_bit : SpaMode → ℕ
mode_bit udp = 0
mode_bit https = spa_flag_https

unfoldable pub mode_from_flags : ℕ → SpaMode
mode_from_flags flags = if nat_beq (bit_and flags spa_flag_https) 0 then udp else https

pub data SpaAllowIp : Type 0 where
  explicit : Ipv4Addr → SpaAllowIp
  packet_source : SpaAllowIp

abbrev pub allow_ip_bit : SpaAllowIp → ℕ
allow_ip_bit (explicit ip) = 0
allow_ip_bit packet_source = spa_flag_use_packet_source

abbrev pub ip_bytes : SpaAllowIp → List ℕ
ip_bytes (explicit ip) = ip
ip_bytes packet_source = replicate allow_ip_len 0

pub record SpaPacket : Type 0 where
  pub mode : SpaMode
  pub use_packet_source : Bool
  pub key_id : KeyId
  pub timestamp_ms : ℕ
  pub counter : ℕ
  pub allow_ip : Ipv4Addr
  pub signature : List ℕ
  pub ephemeral_pub : List ℕ

pub data SpaError : Type 0 where
  invalid_length : ℕ → SpaError
  seal_open_failed : SpaError
  invalid_version : SpaError
  invalid_flags : ℕ → SpaError
  bad_signature : SpaError

-- signed region, ephemeral public key, server public key
abbrev pub signed_message : List ℕ → List ℕ → List ℕ → List ℕ
signed_message signed_region ephemeral_pub server_static_pubkey =
    signed_region ++ (ephemeral_pub ++ server_static_pubkey)

-- `read_array::<N>(buf, &mut offset)`: the field and the advanced offset.
unfoldable pub read_array : ℕ → List ℕ → ℕ → List ℕ × ℕ
read_array n buf offset = (take n (drop offset buf), offset + n)

unfoldable pub random_padding_len : ℕ → ℕ
random_padding_len random = random % (spa_max_padding + 1)

-- The bytes before the signature: `build` fills them from its arguments, `verify` from the packet.
abbrev pub signed_region : ℕ → KeyId → ℕ → ℕ → List ℕ → List ℕ
signed_region flags key_id timestamp_ms counter ip =
    version_prefix
    ++ flags ∷ (key_id ++ (to_be_bytes 8 timestamp_ms ++ (to_be_bytes 8 counter ++ ip)))

abbrev pub flags_byte : SpaPacket → ℕ
flags_byte p =
    bit_or (mode_bit p.mode) (if p.use_packet_source then spa_flag_use_packet_source else 0)

-- The fields of an opened record, from offset 3 on.
unfoldable pub parse_fields : ℕ → List ℕ → List ℕ → SpaPacket
unfolding read_array
parse_fields flags inner ephemeral_pub =
    let (key_id, offset1) = read_array key_id_len inner 3 in
    let (timestamp, offset2) = read_array timestamp_len inner offset1 in
    let (counter, offset3) = read_array counter_len inner offset2 in
    let (allow_ip, offset4) = read_array allow_ip_len inner offset3 in
    let (signature, offset5) = read_array signature_len inner offset4 in
    record {
      mode = mode_from_flags flags;
      use_packet_source = not (nat_beq (bit_and flags spa_flag_use_packet_source) 0);
      key_id = key_id;
      timestamp_ms = from_be_bytes timestamp;
      counter = from_be_bytes counter;
      allow_ip = allow_ip;
      signature = signature;
      ephemeral_pub = ephemeral_pub;
    }

unfoldable pub parse_inner : Opened → Result SpaError SpaPacket
parse_inner opened = do
  let inner = opened.plaintext
  let flags = get_or inner 2 0
  fail_if (not (nat_beq (length inner) spa_inner_len)) seal_open_failed
  fail_if (not (bytes_beq (take 2 inner) version_prefix)) invalid_version
  fail_if (not (nat_beq (bit_and flags spa_reserved_flags) 0)) (invalid_flags flags)
  ok (parse_fields flags inner opened.ephemeral_pub)

module _ (c : Crypto) where
  unfoldable pub key_id_for_public_key : List ℕ → KeyId
  key_id_for_public_key public_key = take key_id_len (c.sha256 public_key)

  -- signing key, mode, timestamp, counter, address, padding, server public key, ephemeral secret
  unfoldable pub build_with_padding :
      List ℕ → SpaMode → ℕ → ℕ → SpaAllowIp → List ℕ → List ℕ → List ℕ → Option (List ℕ)
  build_with_padding signing_key mode timestamp_ms counter allow_ip padding server_pub eph_secret =
      let key_id = key_id_for_public_key (c.verifying_key signing_key) in
      let flags = bit_or (mode_bit mode) (allow_ip_bit allow_ip) in
      let region = signed_region flags key_id timestamp_ms counter (ip_bytes allow_ip) in
      let eph_pub = ephemeral_public c eph_secret in
      let signature = c.sign signing_key (signed_message region eph_pub server_pub) in
      let inner = region ++ signature in
      Option.map (λ wire. wire ++ padding) (seal_with_ephemeral c inner server_pub eph_secret)

  -- As above; the padding has a random length, and `fill n` is its `n` random bytes.
  unfoldable pub build :
      List ℕ
      → SpaMode
      → ℕ
      → ℕ
      → SpaAllowIp
      → List ℕ
      → (random : ℕ) → (fill : ℕ → List ℕ) → List ℕ
      → Option (List ℕ)
  build signing_key mode timestamp_ms counter allow_ip server_pub random fill eph_secret =
      build_with_padding signing_key mode timestamp_ms counter allow_ip
        (fill (random_padding_len random)) server_pub eph_secret

  -- wire payload, server private key
  unfoldable pub open_packet : List ℕ → List ℕ → Result SpaError SpaPacket
  open_packet wire server_private = do
    fail_if (ltb (length wire) spa_min_len || ltb spa_max_len (length wire))
        (invalid_length (length wire))
    let sealed_core = take spa_sealed_core_len wire
    opened ← ok_or (open_seal c sealed_core server_private) seal_open_failed
    parse_inner opened

  -- packet, verifying key, server public key
  unfoldable pub verify_packet : SpaPacket → List ℕ → List ℕ → Result SpaError (Unit {0})
  verify_packet p verifying_key server_pub =
      let region = signed_region (flags_byte p) p.key_id p.timestamp_ms p.counter p.allow_ip in
      if c.verify_signature verifying_key (signed_message region p.ephemeral_pub server_pub)
        p.signature
      then ok tt
      else err bad_signature
