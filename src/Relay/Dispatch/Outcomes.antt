-- ===== src/Relay/Dispatch/Outcomes.antt =====
-- ghostbro-server/src/relay.rs: what a request can lead to, whatever its bytes.
use ghostbro.Base.{
  ℕ, ◌≡◌, refl, min, Bool, true, false, List, [], ◌∷◌, if◌then◌else◌, ◌&&◌, nat_beq,
}
use ghostbro.Base.Result.{Result, ok, err, ◌>>=◌}
use ghostbro.Relay.{External, RelayConfig, RelayError, internal_error}
use ghostbro.Protocol.{protocol_ghost_relay}
use ghostbro.Relay.Wire.{
  ghost_relay_version, op_submit_web, op_list, op_download, op_delete, op_submit_git,
  op_submit_package, read_string, relay_max_url_len, read_u16, read_u32, read_optional_u8,
  artifact_primary, relay_max_download_chunk, relay_status_response, status_failed,
}
use ghostbro.Relay.Guard.{validate_public_url, validate_git_url}
use ghostbro.Relay.Package.{parse}
use ghostbro.Relay.Store.{Relay, JobKind, enqueue, delete_job, validate_job_id, download_job}
use ghostbro.Relay.Dispatch.{
  submit_web, submit_git, submit_package, list, download, delete, dispatch_op, dispatch_request,
  respond, or_else,
}

-- What holds of the value, where there is one.
abbrev pub AllOk : {A : Type 0} → (A → Type 0) → Result RelayError A → Type 0
AllOk P (ok a) = P a
AllOk P (err e) = Unit {0}

pub >>=-AllOk :
    {A B : Type 0} (P : B → Type 0) (first : Result RelayError A) (next : A → Result RelayError B)
    → ((a : A) → AllOk P (next a))
    → AllOk P (first >>= next)
>>=-AllOk P (ok a) next h = h a
>>=-AllOk P (err e) next h = tt

-- What follows may use that the first part succeeds.
checked-AllOk :
    {A B : Type 0} (P : B → Type 0) (first : Result RelayError A) (next : A → Result RelayError B)
    → ((a : A) → first ≡ ok a → AllOk P (next a))
    → AllOk P (first >>= next)
checked-AllOk P (ok a) next h = h a refl
checked-AllOk P (err e) next h = tt

module _ (x : External) (config : RelayConfig) (key_id client : List ℕ) (now : ℕ) (r : Relay)
    (P : List ℕ × Relay → Type 0)
    (enqueues : (kind : JobKind) (source : List ℕ) (normalize : Bool)
      → P (enqueue x config key_id client kind source normalize now r))
    (deletes : (job_id : List ℕ)
      → validate_job_id job_id ≡ ok tt
      → P (delete_job x config client job_id r))
    (answers : (response : List ℕ) → P (response, r)) where
  if-AllOk :
      (b : Bool) (one other : Result RelayError (List ℕ × Relay))
      → AllOk P one
      → AllOk P other
      → AllOk P (if b then one else other)
  if-AllOk true one other h g = h
  if-AllOk false one other h g = g

  submit_web-AllOk : (cursor : List ℕ) → AllOk P (submit_web x config key_id client now cursor r)
  unfolding submit_web
  submit_web-AllOk cursor =
      >>=-AllOk P (read_string x relay_max_url_len cursor) _ (λ a.
        >>=-AllOk P (validate_public_url x a.0 config.allow_loopback) _ (λ ips. enqueues _ _ _))

  submit_git-AllOk : (cursor : List ℕ) → AllOk P (submit_git x config key_id client now cursor r)
  unfolding submit_git
  submit_git-AllOk cursor =
      >>=-AllOk P (read_string x relay_max_url_len cursor) _
        (λ a. >>=-AllOk P (validate_git_url x a.0 config.allow_loopback) _ (λ ips. enqueues _ _ _))

  submit_package-AllOk :
      (cursor : List ℕ) → AllOk P (submit_package x config key_id client now cursor r)
  unfolding submit_package
  submit_package-AllOk cursor = >>=-AllOk P (read_string x 32 cursor) _ (λ a.
      >>=-AllOk P (read_string x 256 a.1) _ (λ b.
        >>=-AllOk P (read_string x 128 b.1) _
          (λ c. >>=-AllOk P (parse x a.0 b.0 c.0) _ (λ spec. enqueues _ _ _))))

  abbrev slice_answer : List ℕ → ℕ → ℕ × List ℕ → Result RelayError (List ℕ)
  slice_answer job_id offset (wanted, rest) =
      download_job x config client job_id offset (min wanted relay_max_download_chunk)
        (or_else (read_optional_u8 rest).0 artifact_primary) now r

  download-AllOk : (cursor : List ℕ) → AllOk P (download x config key_id client now cursor r)
  unfolding download
  download-AllOk cursor = >>=-AllOk P (read_string x 128 cursor) _ (λ a.
      >>=-AllOk P (validate_job_id a.0) _ (λ u. >>=-AllOk P (read_u32 a.1) _ (λ b.
        >>=-AllOk P (read_u16 b.1) _
          (λ c. >>=-AllOk P (slice_answer a.0 b.0 c) _ (λ response. answers response)))))

  delete-AllOk : (cursor : List ℕ) → AllOk P (delete x config key_id client now cursor r)
  unfolding delete
  delete-AllOk cursor =
      >>=-AllOk P (read_string x 128 cursor) _
        (λ a. checked-AllOk P (validate_job_id a.0) _ (λ u valid. deletes a.0 valid))

  dispatch_op-AllOk :
      (op : ℕ) (cursor : List ℕ) → AllOk P (dispatch_op x config key_id client now op cursor r)
  unfolding dispatch_op list
  dispatch_op-AllOk op cursor = if-AllOk (nat_beq op op_submit_web) _ _ (submit_web-AllOk cursor) (
      if-AllOk (nat_beq op op_submit_git) _ _ (submit_git-AllOk cursor) (
        if-AllOk (nat_beq op op_submit_package) _ _ (submit_package-AllOk cursor) (
          if-AllOk (nat_beq op op_list) _ _ (answers _) (
            if-AllOk (nat_beq op op_download) _ _ (download-AllOk cursor)
              (if-AllOk (nat_beq op op_delete) _ _ (delete-AllOk cursor) (answers _))))))

  dispatch_request-AllOk :
      (request : List ℕ) → AllOk P (dispatch_request x config key_id client now request r)
  unfolding dispatch_request
  dispatch_request-AllOk [] = answers _
  dispatch_request-AllOk (a ∷ []) = answers _
  dispatch_request-AllOk (a ∷ b ∷ []) = answers _
  dispatch_request-AllOk (a ∷ b ∷ op ∷ cursor) =
      if-AllOk (nat_beq a protocol_ghost_relay && nat_beq b ghost_relay_version) _ _
        (dispatch_op-AllOk op cursor) (answers _)

  -- Whatever the bytes of a request: it queues a job, deletes one, or leaves the spool as it was.
  pub respond-cases : (request : List ℕ) → P (respond x config key_id client now request r)
  unfolding respond
  respond-cases request =
      finish (dispatch_request x config key_id client now request r)
        (dispatch_request-AllOk request)
    where
      finish :
          (result : Result RelayError (List ℕ × Relay))
          → AllOk P result
          → P (elim result [
            | ok answer ↦ answer
            | err e ↦ (relay_status_response x status_failed internal_error, r)
          ])
      finish (ok answer) h = h
      finish (err e) h = answers _
