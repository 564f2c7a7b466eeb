-- ===== src/Relay/Client.antt =====
-- ghostbro-client/src/main.rs: the relay requests of the client, and how it reads the answers. The
-- exchange of a request for an answer over a fresh tunnel is a parameter.
pub mod Requests
pub mod Downloads
use ghostbro.Base.{
  ℕ, zero, suc, ◌+◌, ◌%◌, ◌^◌, Option, none, some, List, [], ◌∷◌, ◌++◌, Bool, true, false, ◌&&◌,
  ◌||◌, not, if◌then◌else◌, ltb, nat_beq, length, take, drop,
}
use ghostbro.Base.Bytes.{to_be_bytes, from_be_bytes}
use ghostbro.Base.Result.{Result, ok, err, ◌>>=◌, ◌>>◌, fail_if}
use ghostbro.Protocol.{protocol_ghost_relay}
use ghostbro.Relay.Wire.{
  ghost_relay_version, op_submit_web, op_list, op_download, op_delete, op_submit_git,
  op_submit_package, status_ok, status_pending,
}

pub data ClientError : Type 0 where
  string_too_long invalid_response invalid_length truncated_response job_not_ready wrong_total :
      ClientError
  request_failed : List ℕ → ClientError

abbrev pub relay_request : ℕ → List ℕ
relay_request op = protocol_ghost_relay ∷ ghost_relay_version ∷ op ∷ []

unfoldable pub relay_push_string : List ℕ → List ℕ → Result ClientError (List ℕ)
relay_push_string request value = do
  fail_if (ltb 65535 (length value)) string_too_long
  ok (request ++ (to_be_bytes 2 (length value) ++ value))

-- The requests of relay_submit_url, relay_submit_git, relay_submit_package, relay_list and relay_delete.
unfoldable pub submit_url_request : List ℕ → ℕ → Result ClientError (List ℕ)
submit_url_request url normalize = do
  request ← relay_push_string (relay_request op_submit_web) url
  ok (request ++ normalize ∷ [])

unfoldable pub submit_git_request : List ℕ → Result ClientError (List ℕ)
submit_git_request git_url = relay_push_string (relay_request op_submit_git) git_url

unfoldable pub submit_package_request : List ℕ → List ℕ → List ℕ → Result ClientError (List ℕ)
submit_package_request ecosystem name version = do
  request ← relay_push_string (relay_request op_submit_package) ecosystem
  request' ← relay_push_string request name
  relay_push_string request' version

unfoldable pub delete_request : List ℕ → Result ClientError (List ℕ)
delete_request job_id = relay_push_string (relay_request op_delete) job_id

unfoldable pub download_request : List ℕ → ℕ → ℕ → Result ClientError (List ℕ)
download_request job_id offset artifact = do
  request ← relay_push_string (relay_request op_download) job_id
  ok (request ++ (to_be_bytes 4 offset ++ (to_be_bytes 2 8192 ++ artifact ∷ [])))

-- `response[0] != PROTOCOL_GHOST_RELAY || response[1] != GHOST_RELAY_VERSION`
abbrev pub is_relay : ℕ → ℕ → Bool
is_relay protocol version =
    nat_beq protocol protocol_ghost_relay && nat_beq version ghost_relay_version

unfoldable pub parse_relay_bytes_response : List ℕ → Result ClientError (List ℕ)
parse_relay_bytes_response (protocol ∷ version ∷ status ∷ rest) = do
  fail_if (ltb (length rest) 4 || not (is_relay protocol version)) invalid_response
  fail_if (not (nat_beq status status_ok)) (request_failed (drop 4 rest))
  fail_if (not (nat_beq (length rest) (4 + from_be_bytes (take 4 rest)))) invalid_length
  ok (drop 4 rest)
parse_relay_bytes_response response = err invalid_response

-- What stands behind the status of a download that succeeded.
unfoldable pub parse_slice : List ℕ → Result ClientError (Bool × ℕ × List ℕ)
parse_slice [] = err truncated_response
parse_slice (terminal ∷ rest) = do
  fail_if (ltb (length rest) 8) truncated_response
  fail_if (not (nat_beq (length rest) (8 + from_be_bytes (take 4 (drop 4 rest))))) invalid_length
  ok (not (nat_beq terminal 0), from_be_bytes (take 4 rest), drop 8 rest)

unfoldable pub parse_relay_download_response : List ℕ → Result ClientError (Bool × ℕ × List ℕ)
parse_relay_download_response (protocol ∷ version ∷ status ∷ rest) = do
  fail_if (not (is_relay protocol version)) invalid_response
  fail_if (nat_beq status status_pending) job_not_ready
  fail_if (not (nat_beq status status_ok))
      (request_failed (if ltb 4 (length rest) then drop 4 rest else []))
  parse_slice rest
parse_relay_download_response response = err invalid_response

-- What the loop of relay_download does with an answer: it goes on, or ends.
unfoldable pub take_chunk : List ℕ → ℕ → List ℕ → Result ClientError (Bool × ℕ × List ℕ)
take_chunk response offset body = do
  (terminal, total, chunk) ← parse_relay_download_response response
  fail_if (terminal && not (nat_beq (length (body ++ chunk)) total)) wrong_total
  ok (terminal, (offset + length chunk) % 2 ^ 32, body ++ chunk)

-- The loop of relay_download; `none` is out of fuel.
unfoldable pub relay_download :
    (List ℕ → List ℕ) → ℕ → List ℕ → ℕ → ℕ → List ℕ → Option (Result ClientError (List ℕ))
relay_download exchange zero job_id artifact offset body = none
relay_download exchange (suc fuel) job_id artifact offset body =
    elim (download_request job_id offset artifact) [
      | err e ↦ some (err e)
      | ok request ↦ elim (take_chunk (exchange request) offset body) [
        | err e ↦ some (err e)
        | ok (terminal, offset', body') ↦ elim terminal [
          | true ↦ some (ok body')
          | false ↦ relay_download exchange fuel job_id artifact offset' body'
        ]
      ]
    ]
