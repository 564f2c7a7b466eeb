-- ===== src/Seal/Reopen.antt =====
-- ghostbro-common/src/seal.rs: what is sealed to a server is opened by that server.
use ghostbro.Base.{
  ℕ, ◌+◌, ◌≤◌, ◌≡◌, List, ◌++◌, some, length, take, drop, arith, ap, All, le→ltb, take-append,
  drop-append, length-append,
}
use ghostbro.Crypto.{Crypto, CryptoLaws}
use ghostbro.Base.Bytes.{IsByte}
use ghostbro.Seal.{Opened, seal_with_ephemeral, open_seal, derive_key_nonce}

module _ (c : Crypto) (laws : CryptoLaws c) where
  length-sealed :
      (eph s m : List ℕ)
      → length s ≡ length m + 16
      → length (c.x25519_public eph ++ s) ≡ length m + 48
  length-sealed eph s m h =
      omega (arith, length-append (c.x25519_public eph) s, laws.length-public eph)

  -- Sealing a list of bytes never fails, adds 48 bytes, and the holder of the private key gets the plaintext and the
  -- ephemeral public key back.
  pub seal-open :
      (m private eph : List ℕ)
      → All IsByte m
      → (w : List ℕ) × (seal_with_ephemeral c m (c.x25519_public private) eph ≡ some w)
        × (length w ≡ length m + 48)
        × (open_seal c w private
            ≡ some (record { plaintext = m; ephemeral_pub = c.x25519_public eph }))
  unfolding seal_with_ephemeral open_seal
  seal-open m private eph bytes =
      let pub_eph : List ℕ = c.x25519_public eph in
      let kn : List ℕ × List ℕ =
        derive_key_nonce c (c.diffie_hellman eph (c.x25519_public private)) pub_eph
          (c.x25519_public private) in
      let (s, encrypted, len, decrypted) = laws.encrypts kn.0 kn.1 pub_eph m bytes in
      let size : length (pub_eph ++ s) ≡ length m + 48 = length-sealed eph s m len in
      let long : 48 ≤ length (pub_eph ++ s) = omega arith in
      let front = take-append 32 pub_eph s (laws.length-public eph) in
      let back = drop-append 32 pub_eph s (laws.length-public eph) in
      (
        pub_eph ++ s,
        rw (encrypted, seal_with_ephemeral),
        size,
        rw (le→ltb (length (pub_eph ++ s)) 48 long, front, back, laws.agreement private eph)
            (rw (decrypted, open_seal)
              (ap (λ e. some (record { plaintext = m; ephemeral_pub = e })) front)),
      )

  -- What is opened is a list of bytes.
  pub open_seal-IsByte :
      (w private : List ℕ) (o : Opened) → open_seal c w private ≡ some o → All IsByte o.plaintext
  unfolding open_seal
  open_seal-IsByte w private o e =
      let eph : List ℕ = take 32 w in
      let server_pub : List ℕ = c.x25519_public private in
      let kn : List ℕ × List ℕ = derive_key_nonce c (c.diffie_hellman private eph) eph server_pub in
      let opened : c.aead_decrypt kn.0 kn.1 eph (drop 32 w) ≡ some o.plaintext = ground arith in
      laws.decrypt-IsByte kn.0 kn.1 eph (drop 32 w) o.plaintext opened
