-- ===== src/Relay/Dispatch/Quota.antt =====
-- ghostbro-server/src/relay.rs: the number of jobs that a client may have.
use ghostbro.Base.{
  ℕ, suc, ◌≤◌, ◌≡◌, refl, sym, subst, Bool, List, [], ◌∷◌, arith, bytes_eq, bytes_beq, Bool-cases,
  Option-cases, inl, inr, leb, if◌then◌else◌,
}
use ghostbro.Base.Dict.{Dict, lookup, insert, remove}
use ghostbro.Relay.{External, RelayConfig}
use ghostbro.Relay.Store.{
  Relay, ClientDir, RelayJobMetadata, JobKind, is_live, usage_of, client_usage, client_dir, put_dir,
  without_job, enqueue, delete_job, validate_job_id, new_job, relay_job_id,
}
use ghostbro.Base.Result.{ok}
use ghostbro.Relay.Store.Files.{delete_job-own, client_dir-put}
use ghostbro.Relay.Dispatch.{respond}
use ghostbro.Relay.Dispatch.Outcomes.{respond-cases}

abbrev Jobs : Type 0
Jobs = Dict (List ℕ) RelayJobMetadata

live_jobs-cons :
    (now : ℕ) (id : List ℕ) (m : RelayJobMetadata) (jobs : Jobs)
    → (usage_of now ((id, m) ∷ jobs)).0
      ≡ (if is_live now m then suc (usage_of now jobs).0 else (usage_of now jobs).0)
unfolding usage_of
live_jobs-cons now id m jobs = elim (Bool-cases (is_live now m)) [
  | inl h ↦ rw h refl
  | inr h ↦ rw h refl
]

live_jobs-remove :
    (now : ℕ) (k : List ℕ) (jobs : Jobs) → (usage_of now (remove k jobs)).0 ≤ (usage_of now jobs).0
unfolding remove
live_jobs-remove now k [] = omega arith
live_jobs-remove now k ((id, m) ∷ jobs) =
    let less = live_jobs-remove now k jobs in
    let one = live_jobs-cons now id m jobs in
    let other = live_jobs-cons now id m (remove k jobs) in
    elim (Bool-cases (bytes_beq id k)) [
      | inl same ↦ rw same (ground (arith, less, one))
      | inr differ ↦ rw differ (ground (arith, less, one, other))
    ]

live_jobs-insert :
    (now : ℕ) (k : List ℕ) (m : RelayJobMetadata) (jobs : Jobs)
    → (usage_of now (insert k m jobs)).0 ≤ suc (usage_of now jobs).0
unfolding insert
live_jobs-insert now k m jobs =
    ground (arith, live_jobs-cons now k m (remove k jobs), live_jobs-remove now k jobs)

module _ (x : External) (config : RelayConfig) (key_id client : List ℕ) (now : ℕ) (r : Relay) where
  -- The jobs of the client that have not expired.
  abbrev live_jobs : Relay → ℕ
  live_jobs s = (client_usage now (client_dir client s)).0

  abbrev Within : List ℕ × Relay → Type 0
  Within out = live_jobs out.1 ≤ config.max_jobs_per_client

  written-Within :
      (dir : ClientDir)
      → (usage_of now dir.jobs).0 ≤ config.max_jobs_per_client
      → live_jobs (put_dir client dir r) ≤ config.max_jobs_per_client
  unfolding client_usage
  written-Within dir h =
      subst (λ d. (usage_of now d.jobs).0 ≤ config.max_jobs_per_client)
        (sym (client_dir-put client dir r)) h

  enqueue-Within :
      (kind : JobKind) (source : List ℕ) (normalize : Bool)
      → live_jobs r ≤ config.max_jobs_per_client
      → Within (enqueue x config key_id client kind source normalize now r)
  unfolding enqueue client_usage
  enqueue-Within kind source normalize before =
      let dir : ClientDir = client_dir client r in
      let id : List ℕ = relay_job_id x config key_id source now in
      let job : RelayJobMetadata = new_job x config id kind source normalize now in
      elim (Bool-cases (leb config.max_jobs_per_client (client_usage now dir).0)) [
        | inl full ↦ simp (full, enqueue) before
        | inr free ↦ elim (Bool-cases (leb config.max_bytes_per_client (client_usage now dir).1)) [
          | inl full ↦ simp (free, full, enqueue) before
          | inr room ↦
              simp (free, room, enqueue)
                (written-Within (record dir { jobs = insert id job dir.jobs })
                  (ground (arith, free, live_jobs-insert now id job dir.jobs)))
        ]
      ]

  delete_job-Within :
      (job_id : List ℕ)
      → validate_job_id job_id ≡ ok tt
      → live_jobs r ≤ config.max_jobs_per_client
      → Within (delete_job x config client job_id r)
  unfolding client_usage
  delete_job-Within job_id valid before =
      elim (Option-cases (lookup job_id (client_dir client r).jobs)) [
        | inl missing ↦ simp (delete_job-own x config client job_id valid r, missing) before
        | inr (metadata, found) ↦
            simp (delete_job-own x config client job_id valid r, found)
              (written-Within (without_job job_id (client_dir client r))
                (omega (arith, before, live_jobs-remove now job_id (client_dir client r).jobs)))
      ]

  -- A client whose jobs that have not expired are within the quota is within it after any request of its own
  -- at that time.
  pub respond-Within :
      (request : List ℕ)
      → live_jobs r ≤ config.max_jobs_per_client
      → live_jobs (respond x config key_id client now request r).1 ≤ config.max_jobs_per_client
  respond-Within request before =
      respond-cases x config key_id client now r Within
        (λ kind source normalize. enqueue-Within kind source normalize before)
        (λ job_id valid. delete_job-Within job_id valid before) (λ response. before) request
