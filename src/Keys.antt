-- ===== src/Keys.antt =====
-- ghostbro-common/src/keys.rs and ghostbro-server/src/keys.rs: key ids and enrolled clients.
-- Text is a list of bytes. Base64 and the check of a curve point are the crates' own, and arguments.
pub mod Hex
pub mod Enroll
use ghostbro.Base.{
  ℕ, ◌+◌, ◌-◌, ◌*◌, ◌/◌, ◌%◌, List, [], ◌∷◌, Option, none, some, Bool, not, ◌&&◌, if◌then◌else◌,
  leb, ltb, nat_beq, length,
}
use ghostbro.Base.Result.{Result, ok, err, ◌>>=◌, ◌>>◌, fail_if}
use ghostbro.Crypto.{Crypto}
use ghostbro.Packet.{KeyId, key_id_for_public_key}
use ghostbro.Protocol.{key_id_len}

-- `{:x}` of a number below 16
unfoldable pub hex_digit : ℕ → ℕ
hex_digit d = if ltb d 10 then b'0' + d else b'a' + (d - 10)

-- `key_id_hex`: two digits a byte
unfoldable pub key_id_hex : KeyId → List ℕ
key_id_hex [] = []
key_id_hex (b ∷ bs) = hex_digit (b / 16) ∷ hex_digit (b % 16) ∷ key_id_hex bs

-- `char::to_digit(16)`
unfoldable pub digit_value : ℕ → Option ℕ
digit_value c =
    if leb b'0' c && leb c b'9'
    then some (c - b'0')
    else if leb b'a' c && leb c b'f'
    then some (c - b'a' + 10)
    else if leb b'A' c && leb c b'F'
    then some (c - b'A' + 10)
    else none

abbrev pub two_digits : Option ℕ → Option ℕ → Option ℕ
two_digits (some h) (some l) = some (h * 16 + l)
two_digits (some h) none = none
two_digits none l = none

-- `u8::from_str_radix(chunk, 16)` of two bytes: a leading `+` is a sign. (Two bytes that are not ASCII
-- hold no digit, whether or not they are UTF-8.)
unfoldable pub byte_from_hex : ℕ → ℕ → Option ℕ
byte_from_hex a b =
    if nat_beq a b'+' then digit_value b else two_digits (digit_value a) (digit_value b)

unfoldable pub bytes_from_hex : List ℕ → Option (List ℕ)
bytes_from_hex [] = some []
bytes_from_hex (a ∷ []) = some []
bytes_from_hex (a ∷ b ∷ rest) = elim (byte_from_hex a b) [
  | none ↦ none
  | some v ↦ elim (bytes_from_hex rest) [ none ↦ none | some vs ↦ some (v ∷ vs) ]
]

unfoldable pub key_id_from_hex : List ℕ → Option KeyId
key_id_from_hex hex =
    if not (nat_beq (length hex) (key_id_len + key_id_len)) then none else bytes_from_hex hex

pub data ClientTier : Type 0 where
  full decoy : ClientTier

pub record AuthorizedClientConfig : Type 0 where
  pub name : List ℕ
  pub public_key : List ℕ
  pub noise_public_key : List ℕ
  pub tier : ClientTier
  pub max_concurrent_sessions : Option ℕ

pub record AuthorizedClient : Type 0 where
  pub name : List ℕ
  pub public_key : List ℕ
  pub noise_public_key : List ℕ
  pub key_id : KeyId
  pub client_id : ℕ
  pub tier : ClientTier
  pub max_concurrent_sessions : Option ℕ

pub data KeyError : Type 0 where
  invalid_base64 : KeyError
  invalid_public_key_length : ℕ → KeyError
  invalid_noise_public_key_length : ℕ → KeyError
  invalid_public_key : KeyError

-- `u16::try_from(index + 1).unwrap_or(u16::MAX)`
unfoldable pub index_to_client_id : ℕ → ℕ
index_to_client_id index = if leb (index + 1) 65535 then index + 1 else 65535

-- `STANDARD.decode`, and whether 32 bytes are an Ed25519 point.
module _ (c : Crypto) (base64_decode : List ℕ → Option (List ℕ)) (is_point : List ℕ → Bool) where
  unfoldable pub decode_public_key : List ℕ → Result KeyError (List ℕ)
  decode_public_key encoded = elim (base64_decode encoded) [
    | none ↦ err invalid_base64
    | some bytes ↦ do
      fail_if (not (nat_beq (length bytes) 32)) (invalid_public_key_length (length bytes))
      fail_if (not (is_point bytes)) invalid_public_key
      ok bytes
  ]

  unfoldable pub decode_noise_public_key : List ℕ → Result KeyError (List ℕ)
  decode_noise_public_key encoded = elim (base64_decode encoded) [
    | none ↦ err invalid_base64
    | some bytes ↦ do
      fail_if (not (nat_beq (length bytes) 32)) (invalid_noise_public_key_length (length bytes))
      ok bytes
  ]

  unfoldable pub from_config : AuthorizedClientConfig → ℕ → Result KeyError AuthorizedClient
  unfolding decode_public_key decode_noise_public_key
  from_config config client_id = do
    public_key ← decode_public_key config.public_key
    noise_public_key ← decode_noise_public_key config.noise_public_key
    ok (record {
      name = config.name;
      public_key = public_key;
      noise_public_key = noise_public_key;
      key_id = key_id_for_public_key c public_key;
      client_id = client_id;
      tier = config.tier;
      max_concurrent_sessions = config.max_concurrent_sessions;
    })

  -- `.enumerate().map(..).collect::<Result<_, _>>()`: the first error ends it.
  unfoldable pub clients_from :
      ℕ → List AuthorizedClientConfig → Result KeyError (List AuthorizedClient)
  clients_from index [] = ok []
  clients_from index (config ∷ configs) = do
    client ← from_config config (index_to_client_id index)
    rest ← clients_from (index + 1) configs
    ok (client ∷ rest)

  unfoldable pub into_clients :
      List AuthorizedClientConfig → Result KeyError (List AuthorizedClient)
  into_clients configs = clients_from 0 configs
