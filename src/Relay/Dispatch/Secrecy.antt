-- ===== src/Relay/Dispatch/Secrecy.antt =====
-- ghostbro-server/src/relay.rs: what a client is answered depends on its own directory only.
use ghostbro.Base.{
  ℕ, min, ◌≡◌, refl, ap, ◌∙◌, subst, Bool, true, false, List, [], ◌∷◌, ◌&&◌, if◌then◌else◌, nat_beq,
  bytes_eq, Option-cases, inl, inr,
}
use ghostbro.Base.Dict.{lookup}
use ghostbro.Base.Result.{Result, ok, err, ◌>>=◌}
use ghostbro.Relay.{External, RelayConfig, RelayError, internal_error}
use ghostbro.Protocol.{protocol_ghost_relay}
use ghostbro.Relay.Wire.{
  ghost_relay_version, op_submit_web, op_list, op_download, op_delete, op_submit_git,
  op_submit_package, read_string, relay_max_url_len, read_u16, read_u32, status_failed,
  relay_status_response, read_optional_u8, artifact_primary, relay_max_download_chunk,
}
use ghostbro.Relay.Guard.{validate_public_url, validate_git_url}
use ghostbro.Relay.Package.{parse}
use ghostbro.Relay.Store.{
  Relay, JobKind, enqueue, delete_job, client_dir, validate_job_id, download_job,
}
use ghostbro.Relay.Listing.{list_jobs}
use ghostbro.Relay.Store.Files.{delete_job-own, download_job-same}
use ghostbro.Relay.Dispatch.{
  submit_web, submit_git, submit_package, list, download, delete, dispatch_op, dispatch_request,
  respond, or_else,
}

-- Two answers with the same response.
abbrev Alike : Result RelayError (List ℕ × Relay) → Result RelayError (List ℕ × Relay) → Type 0
Alike (ok a) (ok b) = a.0 ≡ b.0
Alike (ok a) (err e) = ⊥
Alike (err e) (ok b) = ⊥
Alike (err e) (err f) = Unit {0}

>>=-Alike :
    {A : Type 0} (first : Result RelayError A) (next other : A → Result RelayError (List ℕ × Relay))
    → ((a : A) → Alike (next a) (other a))
    → Alike (first >>= next) (first >>= other)
>>=-Alike (ok a) next other h = h a
>>=-Alike (err e) next other h = tt

if-Alike :
    (b : Bool) (one two one' two' : Result RelayError (List ℕ × Relay))
    → Alike one one'
    → Alike two two'
    → Alike (if b then one else two) (if b then one' else two')
if-Alike true one two one' two' h g = h
if-Alike false one two one' two' h g = g

-- The response of the branch taken.
if-response :
    (b : Bool) (one two : List ℕ × Relay)
    → (if b then one else two).0 ≡ (if b then one.0 else two.0)
if-response true one two = refl
if-response false one two = refl

checked-Alike :
    {A : Type 0} (first : Result RelayError A) (next other : A → Result RelayError (List ℕ × Relay))
    → ((a : A) → first ≡ ok a → Alike (next a) (other a))
    → Alike (first >>= next) (first >>= other)
checked-Alike (ok a) next other h = h a refl
checked-Alike (err e) next other h = tt

module _ (x : External) (config : RelayConfig) (key_id client : List ℕ) (now : ℕ) (r s : Relay)
    (same : client_dir client r ≡ client_dir client s) where
  enqueue-same :
      (kind : JobKind) (source : List ℕ) (normalize : Bool)
      → (enqueue x config key_id client kind source normalize now r).0
        ≡ (enqueue x config key_id client kind source normalize now s).0
  unfolding enqueue
  enqueue-same kind source normalize = simp (same, if-response)

  delete_job-same :
      (job_id : List ℕ)
      → validate_job_id job_id ≡ ok tt
      → (delete_job x config client job_id r).0 ≡ (delete_job x config client job_id s).0
  delete_job-same job_id valid =
      let own = delete_job-own x config client job_id valid in
      elim (Option-cases (lookup job_id (client_dir client s).jobs)) [
        | inl missing ↦
            simp (own r, own s, ap (λ dir. lookup job_id dir.jobs) same ∙ missing, missing)
        | inr (metadata, found) ↦
            simp (own r, own s, ap (λ dir. lookup job_id dir.jobs) same ∙ found, found)
      ]

  submit_web-Alike :
      (cursor : List ℕ)
      → Alike
          (submit_web x config key_id client now cursor r)
          (submit_web x config key_id client now cursor s)
  unfolding submit_web
  submit_web-Alike cursor = >>=-Alike (read_string x relay_max_url_len cursor) _ _ (λ a.
      >>=-Alike (validate_public_url x a.0 config.allow_loopback) _ _ (λ ips. enqueue-same _ _ _))

  submit_git-Alike :
      (cursor : List ℕ)
      → Alike
          (submit_git x config key_id client now cursor r)
          (submit_git x config key_id client now cursor s)
  unfolding submit_git
  submit_git-Alike cursor = >>=-Alike (read_string x relay_max_url_len cursor) _ _ (λ a.
      >>=-Alike (validate_git_url x a.0 config.allow_loopback) _ _ (λ ips. enqueue-same _ _ _))

  submit_package-Alike :
      (cursor : List ℕ)
      → Alike
          (submit_package x config key_id client now cursor r)
          (submit_package x config key_id client now cursor s)
  unfolding submit_package
  submit_package-Alike cursor = >>=-Alike (read_string x 32 cursor) _ _ (λ a.
      >>=-Alike (read_string x 256 a.1) _ _ (λ b.
        >>=-Alike (read_string x 128 b.1) _ _
          (λ c. >>=-Alike (parse x a.0 b.0 c.0) _ _ (λ spec. enqueue-same _ _ _))))

  abbrev slice_for : List ℕ → ℕ → ℕ × List ℕ → Relay → Result RelayError (List ℕ)
  slice_for job_id offset (wanted, rest) relay =
      download_job x config client job_id offset (min wanted relay_max_download_chunk)
        (or_else (read_optional_u8 rest).0 artifact_primary) now relay

  slice-same :
      (job_id : List ℕ) (offset : ℕ) (wanted : ℕ × List ℕ)
      → validate_job_id job_id ≡ ok tt
      → slice_for job_id offset wanted r ≡ slice_for job_id offset wanted s
  slice-same job_id offset (wanted, rest) valid =
      download_job-same x config client job_id valid offset (min wanted relay_max_download_chunk)
        (or_else (read_optional_u8 rest).0 artifact_primary) now r s same

  slice-Alike :
      (answer other : Result RelayError (List ℕ))
      → answer ≡ other
      → Alike (answer >>= λ response. ok (response, r)) (other >>= λ response. ok (response, s))
  slice-Alike answer other equal =
      subst
        (λ o. Alike (answer >>= λ response. ok (response, r)) (o >>= λ response. ok (response, s)))
        equal (slice-alone answer)
    where
      slice-alone :
          (a : Result RelayError (List ℕ))
          → Alike (a >>= λ response. ok (response, r)) (a >>= λ response. ok (response, s))
      slice-alone (ok response) = refl
      slice-alone (err e) = tt

  download-Alike :
      (cursor : List ℕ)
      → Alike
          (download x config key_id client now cursor r)
          (download x config key_id client now cursor s)
  unfolding download
  download-Alike cursor = >>=-Alike (read_string x 128 cursor) _ _ (λ a.
      checked-Alike (validate_job_id a.0) _ _ (λ u valid.
        >>=-Alike (read_u32 a.1) _ _
          (λ b. >>=-Alike (read_u16 b.1) _ _ (λ c. slice-Alike _ _ (slice-same a.0 b.0 c valid)))))

  delete-Alike :
      (cursor : List ℕ)
      → Alike
          (delete x config key_id client now cursor r)
          (delete x config key_id client now cursor s)
  unfolding delete
  delete-Alike cursor =
      >>=-Alike (read_string x 128 cursor) _ _
        (λ a. checked-Alike (validate_job_id a.0) _ _ (λ u valid. delete_job-same a.0 valid))

  list-same : list_jobs x now (client_dir client r) ≡ list_jobs x now (client_dir client s)
  list-same = ap (list_jobs x now) same

  dispatch_op-Alike :
      (op : ℕ) (cursor : List ℕ)
      → Alike
          (dispatch_op x config key_id client now op cursor r)
          (dispatch_op x config key_id client now op cursor s)
  unfolding dispatch_op list
  dispatch_op-Alike op cursor =
      if-Alike (nat_beq op op_submit_web) _ _ _ _ (submit_web-Alike cursor) (
        if-Alike (nat_beq op op_submit_git) _ _ _ _ (submit_git-Alike cursor) (
          if-Alike (nat_beq op op_submit_package) _ _ _ _ (submit_package-Alike cursor) (
            if-Alike (nat_beq op op_list) _ _ _ _ list-same (
              if-Alike (nat_beq op op_download) _ _ _ _ (download-Alike cursor)
                (if-Alike (nat_beq op op_delete) _ _ _ _ (delete-Alike cursor) refl)))))

  dispatch_request-Alike :
      (request : List ℕ)
      → Alike
          (dispatch_request x config key_id client now request r)
          (dispatch_request x config key_id client now request s)
  unfolding dispatch_request
  dispatch_request-Alike [] = refl
  dispatch_request-Alike (a ∷ []) = refl
  dispatch_request-Alike (a ∷ b ∷ []) = refl
  dispatch_request-Alike (a ∷ b ∷ op ∷ cursor) =
      if-Alike (nat_beq a protocol_ghost_relay && nat_beq b ghost_relay_version) _ _ _ _
        (dispatch_op-Alike op cursor) refl

  abbrev answer_of : Relay → Result RelayError (List ℕ × Relay) → List ℕ × Relay
  answer_of relay result = elim result [
    | ok answer ↦ answer
    | err e ↦ (relay_status_response x status_failed internal_error, relay)
  ]

  -- Two relays that agree on a client's directory answer any request of that client alike.
  pub respond-same :
      (request : List ℕ)
      → (respond x config key_id client now request r).0
        ≡ (respond x config key_id client now request s).0
  unfolding respond
  respond-same request =
      finish (dispatch_request x config key_id client now request r)
        (dispatch_request x config key_id client now request s) (dispatch_request-Alike request)
    where
      finish :
          (one other : Result RelayError (List ℕ × Relay))
          → Alike one other
          → (answer_of r one).0 ≡ (answer_of s other).0
      finish (ok a) (ok b) h = h
      finish (ok a) (err e) h = absurd h
      finish (err e) (ok b) h = absurd h
      finish (err e) (err f) h = refl
