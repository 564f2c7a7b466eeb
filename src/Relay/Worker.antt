-- ===== src/Relay/Worker.antt =====
-- ghostbro-server/src/relay.rs: the workers, the reaper and the recovery at start. A job is worked on in three
-- steps: before its fetch (start_job), after it under the quota lock (write_object), and after the release of
-- the lock (complete_job). Between them requests are answered and other workers take steps. What the fetch
-- brings (run_web_fetch, run_git_mirror, run_package) is an argument.
pub mod Jobs
pub mod Race
use ghostbro.Base.{
  ℕ, ◌+◌, Option, none, some, List, [], ◌∷◌, ◌++◌, Bool, true, false, ◌&&◌, if◌then◌else◌, ltb, leb,
  length, bytes_eq,
}
use ghostbro.Base.Dict.{Dict, lookup, insert, remove}
use ghostbro.Base.Result.{Result, ok, err}
use ghostbro.Relay.{External, RelayConfig, RelayError, storage_quota_exceeded, object_too_large}
use ghostbro.Relay.Store.{
  JobStatus, queued, running, complete, failed, RelayJobMetadata, ClientDir, JobRef, Relay,
  client_dir, put_dir, client_usage, without_job,
}

pub record JobOutcome : Type 0 where
  pub body : List ℕ
  pub http_status : Option ℕ
  pub content_type : Option (List ℕ)

-- `write_metadata`
abbrev pub write_metadata : RelayJobMetadata → ClientDir → ClientDir
write_metadata metadata dir = record dir { jobs = insert metadata.job_id metadata dir.jobs }

abbrev pub is_pending : JobStatus → Bool
is_pending queued = true
is_pending running = true
is_pending complete = false
is_pending failed = false

-- `process_job_inner` up to the fetch: the metadata that the worker keeps while it waits, if there is work.
unfoldable pub start_job : JobRef → ℕ → Relay → Option RelayJobMetadata × Relay
start_job job now r = elim (lookup job.job (client_dir job.client r).jobs) [
  | none ↦ (none, r)
  | some metadata ↦
      let metadata' = record metadata { status = running; updated_at_ms = now } in
      let started = put_dir job.client (write_metadata metadata' (client_dir job.client r)) r in
      elim metadata.status [
        | complete ↦ (none, r)
        | queued ↦ (some metadata', started)
        | running ↦ (some metadata', started)
        | failed ↦ (some metadata', started)
      ]
]

-- `process_job` on an error: what is stored of the job is marked, if it is still there.
unfoldable pub fail_job : JobRef → List ℕ → ℕ → Relay → Relay
fail_job job message now r = elim (lookup job.job (client_dir job.client r).jobs) [
  | none ↦ r
  | some metadata ↦
      put_dir job.client
        (write_metadata
          (record metadata { status = failed; error = some message; updated_at_ms = now })
          (client_dir job.client r))
        r
]

module _ (x : External) (config : RelayConfig) where
  -- What is under the quota lock of the client: the check, and the write of the body.
  unfoldable pub write_object :
      JobRef → RelayJobMetadata → JobOutcome → ℕ → Relay → Result RelayError (Unit {0}) × Relay
  write_object job metadata outcome now r =
      let dir = client_dir job.client r in
      let (count, existing_bytes) = client_usage now dir in
      let dir' = record dir { bodies = insert metadata.job_id outcome.body dir.bodies } in
      if ltb config.max_bytes_per_client (existing_bytes + length outcome.body)
      then (err storage_quota_exceeded, r)
      else if ltb config.max_object_len (length outcome.body)
      then (err object_too_large, r)
      else (ok tt, put_dir job.client dir' r)

  -- The metadata of a result, and the Markdown of a page.
  unfoldable pub store_outcome :
      RelayJobMetadata → JobOutcome → ClientDir → RelayJobMetadata × ClientDir
  store_outcome metadata outcome dir =
      let metadata' = record metadata {
        body_len = length outcome.body;
        http_status = outcome.http_status;
        content_type = outcome.content_type;
        sha256 = some (x.sha256_hex outcome.body);
      } in
      let markdown = x.html_to_markdown outcome.body in
      if metadata.normalize && x.is_html outcome.content_type outcome.body
      then (
        record metadata' { normalized_len = some (length markdown) },
        record dir { normalized = insert metadata.job_id markdown dir.normalized },
      )
      else (metadata', dir)

  -- What follows the release of the lock: the metadata says that the job is complete.
  unfoldable pub complete_job : JobRef → RelayJobMetadata → JobOutcome → ℕ → Relay → Relay
  complete_job job metadata outcome now r =
      let (metadata', dir) = store_outcome metadata outcome (client_dir job.client r) in
      let done = record metadata' { status = complete; error = none; updated_at_ms = now } in
      put_dir job.client (write_metadata done dir) r

  -- `process_job_inner` after the fetch, where nothing comes between its two parts.
  unfoldable pub finish_job :
      JobRef → RelayJobMetadata → JobOutcome → ℕ → Relay → Result RelayError (Unit {0}) × Relay
  finish_job job metadata outcome now r =
      let (checked, r') = write_object job metadata outcome now r in
      elim checked [
        | ok done ↦ (ok tt, complete_job job metadata outcome now r')
        | err e ↦ (err e, r')
      ]

-- The loop of `reap_expired` over one client's jobs.
unfoldable pub reap_dir : ℕ → Dict (List ℕ) RelayJobMetadata → ClientDir → ClientDir
reap_dir now [] dir = dir
reap_dir now ((id, metadata) ∷ jobs) dir =
    let left = reap_dir now jobs dir in
    if leb metadata.expires_at_ms now then without_job id left else left

unfoldable pub reap_expired : ℕ → Dict (List ℕ) ClientDir → Dict (List ℕ) ClientDir
reap_expired now [] = []
reap_expired now ((client, dir) ∷ spool) =
    (client, reap_dir now dir.jobs dir) ∷ reap_expired now spool

-- `recover_pending`: jobs that a restart interrupted are queued again.
unfoldable pub pending_jobs : List ℕ → Dict (List ℕ) RelayJobMetadata → List JobRef
pending_jobs client [] = []
pending_jobs client ((id, metadata) ∷ jobs) =
    let rest = pending_jobs client jobs in
    if is_pending metadata.status
    then record { client = client; job = metadata.job_id } ∷ rest
    else rest

unfoldable pub recover_pending : Dict (List ℕ) ClientDir → List JobRef
recover_pending [] = []
recover_pending ((client, dir) ∷ spool) = pending_jobs client dir.jobs ++ recover_pending spool
