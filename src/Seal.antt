-- ===== src/Seal.antt =====
-- ghostbro-common/src/seal.rs: the anonymous sealed box around the SPA record. The random ephemeral
-- secret is an argument; `none` of `seal_with_ephemeral` is the panic of its `expect`.
pub mod Reopen
use ghostbro.Base.{
  ℕ, ◌+◌, List, [], ◌∷◌, ◌++◌, Option, none, some, if◌then◌else◌, ltb, length, take, drop,
}
use ghostbro.Crypto.{Crypto}
use ghostbro.Protocol.{spa_ephemeral_len, spa_aead_tag_len}

-- b"ghostbro-spa-seal-key-v1"
abbrev key_label : List ℕ
key_label =
    0x67 ∷ 0x68 ∷ 0x6f ∷ 0x73 ∷ 0x74 ∷ 0x62 ∷ 0x72 ∷ 0x6f ∷ 0x2d ∷ 0x73 ∷ 0x70 ∷ 0x61 ∷ 0x2d ∷ 0x73
    ∷ 0x65 ∷ 0x61 ∷ 0x6c ∷ 0x2d ∷ 0x6b ∷ 0x65 ∷ 0x79 ∷ 0x2d ∷ 0x76 ∷ 0x31 ∷ []

-- b"ghostbro-spa-seal-nonce-v1"
abbrev nonce_label : List ℕ
nonce_label =
    0x67 ∷ 0x68 ∷ 0x6f ∷ 0x73 ∷ 0x74 ∷ 0x62 ∷ 0x72 ∷ 0x6f ∷ 0x2d ∷ 0x73 ∷ 0x70 ∷ 0x61 ∷ 0x2d ∷ 0x73
    ∷ 0x65 ∷ 0x61 ∷ 0x6c ∷ 0x2d ∷ 0x6e ∷ 0x6f ∷ 0x6e ∷ 0x63 ∷ 0x65 ∷ 0x2d ∷ 0x76 ∷ 0x31 ∷ []

pub record Opened : Type 0 where
  pub plaintext : List ℕ
  pub ephemeral_pub : List ℕ

module _ (c : Crypto) where
  abbrev pub x25519_public_from_private : List ℕ → List ℕ
  x25519_public_from_private private_key = c.x25519_public private_key

  unfoldable pub derive_key_nonce : List ℕ → List ℕ → List ℕ → List ℕ × List ℕ
  derive_key_nonce shared ephemeral_pub server_pub =
      let key = c.sha256 (key_label ++ (shared ++ (ephemeral_pub ++ server_pub))) in
      let nonce = c.sha256 (nonce_label ++ (ephemeral_pub ++ server_pub)) in (key, take 12 nonce)

  abbrev pub ephemeral_public : List ℕ → List ℕ
  ephemeral_public ephemeral_secret = c.x25519_public ephemeral_secret

  -- plaintext, server public key, ephemeral secret
  unfoldable pub seal_with_ephemeral : List ℕ → List ℕ → List ℕ → Option (List ℕ)
  seal_with_ephemeral plaintext server_pub ephemeral_secret =
      let ephemeral_pub = c.x25519_public ephemeral_secret in
      let shared = c.diffie_hellman ephemeral_secret server_pub in
      let (key, nonce) = derive_key_nonce shared ephemeral_pub server_pub in
      elim (c.aead_encrypt key nonce ephemeral_pub plaintext) [
        | none ↦ none
        | some ciphertext ↦ some (ephemeral_pub ++ ciphertext)
      ]

  -- sealed core, server private key
  unfoldable pub open_seal : List ℕ → List ℕ → Option Opened
  open_seal sealed_core server_private =
      if ltb (length sealed_core) (spa_ephemeral_len + spa_aead_tag_len)
      then none
      else let ephemeral_pub = take spa_ephemeral_len sealed_core in
        let ciphertext = drop spa_ephemeral_len sealed_core in
        let server_pub = c.x25519_public server_private in
        let shared = c.diffie_hellman server_private ephemeral_pub in
        let (key, nonce) = derive_key_nonce shared ephemeral_pub server_pub in
        elim (c.aead_decrypt key nonce ephemeral_pub ciphertext) [
          | none ↦ none
          | some plaintext ↦ some (record { plaintext = plaintext; ephemeral_pub = ephemeral_pub })
        ]
