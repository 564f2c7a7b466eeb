-- ===== src/Crypto.antt =====
-- The cryptographic crates that the packet code calls (sha2, x25519-dalek, chacha20poly1305,
-- ed25519-dalek): operations on byte strings, and the documented behaviour that theorems rely on.
-- A signing key and a verifying key stand for their 32-byte encodings.
use ghostbro.Base.{ℕ, ◌+◌, ◌≡◌, Bool, true, List, Option, some, length, All}
use ghostbro.Base.Bytes.{IsByte}

pub record Crypto : Type 0 where
  pub sha256 : List ℕ → List ℕ
  pub x25519_public : List ℕ → List ℕ
  pub diffie_hellman : List ℕ → List ℕ → List ℕ
  -- key, nonce, associated data, message
  pub aead_encrypt : List ℕ → List ℕ → List ℕ → List ℕ → Option (List ℕ)
  pub aead_decrypt : List ℕ → List ℕ → List ℕ → List ℕ → Option (List ℕ)
  pub verifying_key : List ℕ → List ℕ
  pub sign : List ℕ → List ℕ → List ℕ
  -- verifying key, message, signature
  pub verify_signature : List ℕ → List ℕ → List ℕ → Bool

pub record CryptoLaws (c : Crypto) : Type 0 where
  pub length-sha256 : (m : List ℕ) → length (c.sha256 m) ≡ 32
  pub sha256-IsByte : (m : List ℕ) → All IsByte (c.sha256 m)
  pub length-public : (k : List ℕ) → length (c.x25519_public k) ≡ 32
  pub agreement :
      (a b : List ℕ)
      → c.diffie_hellman a (c.x25519_public b) ≡ c.diffie_hellman b (c.x25519_public a)
  -- Encryption adds a tag of 16 bytes, and decryption under the same inputs takes it off again.
  pub encrypts :
      (key nonce aad m : List ℕ)
      → All IsByte m
      → (s : List ℕ) × (c.aead_encrypt key nonce aad m ≡ some s)
        × (length s ≡ length m + 16)
        × (c.aead_decrypt key nonce aad s ≡ some m)
  pub decrypt-IsByte :
      (key nonce aad s m : List ℕ) → c.aead_decrypt key nonce aad s ≡ some m → All IsByte m
  pub length-sign : (k m : List ℕ) → length (c.sign k m) ≡ 64
  pub sign-IsByte : (k m : List ℕ) → All IsByte (c.sign k m)
  pub verify-sign : (k m : List ℕ) → c.verify_signature (c.verifying_key k) m (c.sign k m) ≡ true
