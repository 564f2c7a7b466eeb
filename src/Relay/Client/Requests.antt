-- ===== src/Relay/Client/Requests.antt =====
-- ghostbro-client/src/main.rs, ghostbro-server/src/relay.rs: the server reads what the client wrote.
use ghostbro.Base.{
  ℕ, ◌≤◌, ◌<◌, ◌^◌, ◌≡◌, refl, List, ◌++◌, true, length, arith, take-append, drop-append,
  length-append, le→ltb,
}
use ghostbro.Base.Bytes.{to_be_bytes, from_be_bytes-to_be_bytes, length-to_be_bytes}
use ghostbro.Base.Result.{ok}
use mathlib.Core.List.{append_assoc}
use ghostbro.Relay.{External}
use ghostbro.Relay.Wire.{read_exact, read_u16, read_u32, read_string}
use ghostbro.Relay.Client.{relay_push_string}

pub read_exact-append :
    (n : ℕ) (bytes rest : List ℕ)
    → length bytes ≡ n
    → read_exact n (bytes ++ rest) ≡ ok (bytes, rest)
unfolding read_exact
read_exact-append n bytes rest size =
    rw
      (
        le→ltb (length (bytes ++ rest)) n (omega (arith, size, length-append bytes rest)),
        take-append n bytes rest size,
        drop-append n bytes rest size,
      )
      refl

pub read_u16-to_be_bytes :
    (v : ℕ) (rest : List ℕ) → v < 65536 → read_u16 (to_be_bytes 2 v ++ rest) ≡ ok (v, rest)
unfolding read_u16
read_u16-to_be_bytes v rest small =
    rw
      (
        read_exact-append 2 (to_be_bytes 2 v) rest (length-to_be_bytes 2 v),
        from_be_bytes-to_be_bytes 2 v small,
      )
      refl

pub read_u32-to_be_bytes :
    (v : ℕ) (rest : List ℕ) → v < 2 ^ 32 → read_u32 (to_be_bytes 4 v ++ rest) ≡ ok (v, rest)
unfolding read_u32
read_u32-to_be_bytes v rest small =
    rw
      (
        read_exact-append 4 (to_be_bytes 4 v) rest (length-to_be_bytes 4 v),
        from_be_bytes-to_be_bytes 4 v small,
      )
      refl

-- A string as the client pushes it.
abbrev pub pushed : List ℕ → List ℕ
pushed value = to_be_bytes 2 (length value) ++ value

pub relay_push_string-pushed :
    (request value : List ℕ)
    → length value ≤ 65535
    → relay_push_string request value ≡ ok (request ++ pushed value)
unfolding relay_push_string
relay_push_string-pushed request value small = rw (le→ltb 65535 (length value) small) refl

module _ (x : External) where
  pub read_string-pushed :
      (max_len : ℕ) (value rest : List ℕ)
      → length value ≤ max_len
      → max_len ≤ 65535
      → x.is_utf8 value ≡ true
      → read_string x max_len (pushed value ++ rest) ≡ ok (value, rest)
  unfolding read_string
  read_string-pushed max_len value rest fits small utf8 =
      rw
        (
          append_assoc (to_be_bytes 2 (length value)) value rest,
          read_u16-to_be_bytes (length value) (value ++ rest) (omega (arith, fits, small)),
          le→ltb max_len (length value) fits,
          read_exact-append (length value) value rest refl,
          utf8,
        )
        refl
