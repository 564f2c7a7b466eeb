-- ===== src/Relay/Dispatch.antt =====
-- ghostbro-server/src/relay.rs: dispatch and the requests that it leads to. The time of a request is an
-- argument, read once.
pub mod Outcomes
pub mod Isolation
pub mod Quota
pub mod Secrecy
use ghostbro.Base.{
  ℕ, zero, suc, min, Option, none, some, List, [], ◌∷◌, Bool, true, false, ◌&&◌, ◌||◌, not,
  if◌then◌else◌, nat_beq,
}
use ghostbro.Base.Result.{Result, ok, err, ◌>>=◌, ◌>>◌}
use ghostbro.Relay.{
  External, RelayConfig, RelayError, Note, invalid_header, unsupported_operation, internal_error,
}
use ghostbro.Protocol.{protocol_ghost_relay}
use ghostbro.Relay.Wire.{
  ghost_relay_version, op_submit_web, op_list, op_download, op_delete, op_submit_git,
  op_submit_package, status_invalid, status_failed, status_unsupported, artifact_primary,
  relay_max_url_len, relay_max_download_chunk, read_u16, read_u32, read_optional_u8, read_string,
  relay_status_response,
}
use ghostbro.Relay.Guard.{validate_public_url, validate_git_url}
use ghostbro.Relay.Package.{parse, encode}
use ghostbro.Relay.Store.{
  Relay, client_dir, web_fetch, git_mirror, package_fetch, validate_job_id, enqueue, download_job,
  delete_job,
}
use ghostbro.Relay.Listing.{list_jobs}
use ghostbro.Keys.{key_id_hex}

abbrev pub or_else : Option ℕ → ℕ → ℕ
or_else none d = d
or_else (some n) d = n

module _ (x : External) (config : RelayConfig) (key_id client : List ℕ) (now : ℕ) where
  -- A response and the spool after it, or an error that leaves the spool as it was.
  abbrev Answer : Type 0
  Answer = Relay → Result RelayError (List ℕ × Relay)

  unfoldable pub submit_web : List ℕ → Answer
  submit_web cursor r = do
    (url, rest) ← read_string x relay_max_url_len cursor
    ips ← validate_public_url x url config.allow_loopback
    let normalize = not (nat_beq (or_else (read_optional_u8 rest).0 0) 0)
    ok (enqueue x config key_id client web_fetch url normalize now r)

  unfoldable pub submit_git : List ℕ → Answer
  submit_git cursor r = do
    (url, rest) ← read_string x relay_max_url_len cursor
    ips ← validate_git_url x url config.allow_loopback
    ok (enqueue x config key_id client git_mirror url false now r)

  unfoldable pub submit_package : List ℕ → Answer
  submit_package cursor r = do
    (ecosystem, rest) ← read_string x 32 cursor
    (name, rest') ← read_string x 256 rest
    (version, rest'') ← read_string x 128 rest'
    spec ← parse x ecosystem name version
    ok (enqueue x config key_id client package_fetch (encode spec) false now r)

  unfoldable pub list : Answer
  list r = ok (list_jobs x now (client_dir client r), r)

  unfoldable pub download : List ℕ → Answer
  download cursor r = do
    (job_id, rest) ← read_string x 128 cursor
    validate_job_id job_id
    (offset, rest') ← read_u32 rest
    (wanted, rest'') ← read_u16 rest'
    let max_len = min wanted relay_max_download_chunk
    let artifact = or_else (read_optional_u8 rest'').0 artifact_primary
    response ← download_job x config client job_id offset max_len artifact now r
    ok (response, r)

  unfoldable pub delete : List ℕ → Answer
  delete cursor r = do
    (job_id, rest) ← read_string x 128 cursor
    validate_job_id job_id
    ok (delete_job x config client job_id r)

  -- The match on the operation.
  unfoldable pub dispatch_op : ℕ → List ℕ → Answer
  dispatch_op op cursor r =
      if nat_beq op op_submit_web
      then submit_web cursor r
      else if nat_beq op op_submit_git
      then submit_git cursor r
      else if nat_beq op op_submit_package
      then submit_package cursor r
      else if nat_beq op op_list
      then list r
      else if nat_beq op op_download
      then download cursor r
      else if nat_beq op op_delete
      then delete cursor r
      else ok (relay_status_response x status_unsupported unsupported_operation, r)

  -- `RelayInner::dispatch`
  unfoldable pub dispatch_request : List ℕ → Answer
  dispatch_request (protocol ∷ version ∷ op ∷ cursor) r =
      if nat_beq protocol protocol_ghost_relay && nat_beq version ghost_relay_version
      then dispatch_op op cursor r
      else ok (relay_status_response x status_invalid invalid_header, r)
  dispatch_request request r = ok (relay_status_response x status_invalid invalid_header, r)

  -- `RelayEngine::dispatch`: every error becomes a response.
  unfoldable pub respond : List ℕ → Relay → List ℕ × Relay
  respond request r = elim (dispatch_request request r) [
    | ok answer ↦ answer
    | err e ↦ (relay_status_response x status_failed internal_error, r)
  ]

-- The engine's dispatch for a client's key id, whose hexadecimal form names its directory.
unfoldable pub dispatch_for : External → RelayConfig → List ℕ → ℕ → List ℕ → Relay → List ℕ × Relay
dispatch_for x config key_id now request r =
    respond x config key_id (key_id_hex key_id) now request r
