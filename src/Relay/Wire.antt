-- ===== src/Relay/Wire.antt =====
-- ghostbro-server/src/relay.rs, ghostbro-common/src/protocol.rs: the bytes of requests and responses. A
-- cursor is the bytes that are left of a request.
use ghostbro.Base.{
  ℕ, ◌-◌, ◌^◌, min, Option, none, some, List, [], ◌∷◌, ◌++◌, if◌then◌else◌, ltb, not, length, take,
  drop,
}
use ghostbro.Base.Bytes.{to_be_bytes, from_be_bytes}
use ghostbro.Base.Result.{Result, ok, err, ◌>>=◌, ◌>>◌, fail_if}
use ghostbro.Protocol.{protocol_ghost_relay}
use ghostbro.Relay.{RelayError, truncated, field_too_long, not_utf8, External, Note}

abbrev pub ghost_relay_version : ℕ
ghost_relay_version = 1

abbrev pub op_submit_web : ℕ
op_submit_web = 1

abbrev pub op_list : ℕ
op_list = 2

abbrev pub op_download : ℕ
op_download = 3

abbrev pub op_delete : ℕ
op_delete = 4

abbrev pub op_submit_git : ℕ
op_submit_git = 5

abbrev pub op_submit_package : ℕ
op_submit_package = 6

abbrev pub status_ok : ℕ
status_ok = 0

abbrev pub status_pending : ℕ
status_pending = 1

abbrev pub status_not_found : ℕ
status_not_found = 2

abbrev pub status_invalid : ℕ
status_invalid = 3

abbrev pub status_failed : ℕ
status_failed = 4

abbrev pub status_quota : ℕ
status_quota = 6

abbrev pub status_unsupported : ℕ
status_unsupported = 0x7f

abbrev pub artifact_primary : ℕ
artifact_primary = 0

abbrev pub artifact_normalized : ℕ
artifact_normalized = 1

abbrev pub relay_max_url_len : ℕ
relay_max_url_len = 2048

abbrev pub relay_max_download_chunk : ℕ
relay_max_download_chunk = 16320

abbrev pub relay_header : ℕ → List ℕ
relay_header status = protocol_ghost_relay ∷ ghost_relay_version ∷ status ∷ []

-- `u32::try_from(bytes.len()).unwrap_or(u32::MAX)`
abbrev pub relay_bytes_response : ℕ → List ℕ → List ℕ
relay_bytes_response status bytes =
    relay_header status ++ (to_be_bytes 4 (min (length bytes) (2 ^ 32 - 1)) ++ bytes)

abbrev pub Read : Type 0 → Type 0
Read A = Result RelayError (A × List ℕ)

unfoldable pub read_exact : ℕ → List ℕ → Read (List ℕ)
read_exact len cursor =
    if ltb (length cursor) len then err truncated else ok (take len cursor, drop len cursor)

unfoldable pub read_u16 : List ℕ → Read ℕ
read_u16 cursor = do (bytes, rest) ← read_exact 2 cursor; ok (from_be_bytes bytes, rest)

unfoldable pub read_u32 : List ℕ → Read ℕ
read_u32 cursor = do (bytes, rest) ← read_exact 4 cursor; ok (from_be_bytes bytes, rest)

abbrev pub read_optional_u8 : List ℕ → Option ℕ × List ℕ
read_optional_u8 [] = (none, [])
read_optional_u8 (byte ∷ rest) = (some byte, rest)

module _ (x : External) where
  abbrev pub relay_status_response : ℕ → Note → List ℕ
  relay_status_response status note = relay_bytes_response status (x.text note)

  unfoldable pub read_string : ℕ → List ℕ → Read (List ℕ)
  read_string max_len cursor = do
    (len, rest) ← read_u16 cursor
    fail_if (ltb max_len len) field_too_long
    (bytes, rest') ← read_exact len rest
    fail_if (not (x.is_utf8 bytes)) not_utf8
    ok (bytes, rest')
