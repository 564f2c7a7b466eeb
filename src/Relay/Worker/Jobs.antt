-- ===== src/Relay/Worker/Jobs.antt =====
-- ghostbro-server/src/relay.rs: what the end of a job stores.
use ghostbro.Base.{
  ℕ, ◌+◌, ◌≤◌, ◌≡◌, refl, sym, ap, subst, ◌∙◌, none, some, Bool, true, false, List, length, arith,
  bytes_eq, beq_refl, Option-cases, Bool-cases, inl, inr, ltb, if◌then◌else◌, ◌&&◌, ◌⊎◌,
}
use ghostbro.Base.Dict.{lookup, insert, remove, lookup-insert_self, lookup-remove}
use ghostbro.Base.Result.{ok, err}
use ghostbro.Relay.{External, RelayConfig, RelayError}
use ghostbro.Relay.Store.{
  ClientDir, JobRef, Relay, RelayJobMetadata, complete, client_dir, client_usage, without_job,
  delete_job, validate_job_id,
}
use ghostbro.Relay.Store.Files.{delete_job-own, client_dir-put}
use ghostbro.Relay.Worker.{
  JobOutcome, write_metadata, store_outcome, write_object, complete_job, finish_job,
}

-- A directory that holds a job as complete, with its object.
abbrev pub HoldsJob : ClientDir → List ℕ → List ℕ → Type 0
HoldsJob dir id body =
    (metadata : RelayJobMetadata) × (lookup id dir.jobs ≡ some metadata)
    × (metadata.status ≡ complete)
    × (metadata.body_len ≡ length body)
    × (lookup id dir.bodies ≡ some body)

if-elim : {A : Type 0} (P : A → Type 0) (b : Bool) (u v : A) → P u → P v → P (if b then u else v)
if-elim P true u v hu hv = hu
if-elim P false u v hu hv = hv

-- What `store_outcome` answers, for a job and a body.
abbrev IsStored : List ℕ → List ℕ → RelayJobMetadata × ClientDir → Type 0
IsStored id body out =
    (out.0.job_id ≡ id) × (out.0.body_len ≡ length body) × (lookup id out.1.bodies ≡ some body)

written-HoldsJob :
    (id body : List ℕ) (now : ℕ) (out : RelayJobMetadata × ClientDir)
    → IsStored id body out
    → HoldsJob
        (write_metadata
          (record out.0 { status = complete; error = none; updated_at_ms = now })
          out.1)
        id
        body
written-HoldsJob id body now (metadata, dir) (named, size, object) =
    let done : RelayJobMetadata = record metadata {
      status = complete;
      error = none;
      updated_at_ms = now;
    } in
    (
      done,
      subst (λ k. lookup k (insert metadata.job_id done dir.jobs) ≡ some done) named
          (lookup-insert_self metadata.job_id done dir.jobs),
      refl,
      size,
      object,
    )

module _ (x : External) (config : RelayConfig) where
  store_outcome-IsStored :
      (metadata : RelayJobMetadata) (outcome : JobOutcome) (dir : ClientDir)
      → lookup metadata.job_id dir.bodies ≡ some outcome.body
      → IsStored metadata.job_id outcome.body (store_outcome x config metadata outcome dir)
  unfolding store_outcome
  store_outcome-IsStored metadata outcome dir object =
      if-elim (IsStored metadata.job_id outcome.body)
        (metadata.normalize && x.is_html outcome.content_type outcome.body) _ _ (refl, refl, object)
        (refl, refl, object)

  -- Once the body is written, the metadata that follows makes the job complete.
  complete_job-HoldsJob :
      (job : JobRef) (metadata : RelayJobMetadata) (outcome : JobOutcome) (now : ℕ) (r : Relay)
      → lookup metadata.job_id (client_dir job.client r).bodies ≡ some outcome.body
      → HoldsJob
          (client_dir job.client (complete_job x config job metadata outcome now r))
          metadata.job_id
          outcome.body
  unfolding complete_job
  complete_job-HoldsJob job metadata outcome now r object =
      let dir : ClientDir = client_dir job.client r in
      subst (λ d. HoldsJob d metadata.job_id outcome.body) (sym (client_dir-put job.client _ r))
        (written-HoldsJob metadata.job_id outcome.body now
          (store_outcome x config metadata outcome dir)
          (store_outcome-IsStored metadata outcome dir object))

  -- The body is in the directory once the checks under the lock have passed.
  module _ (job : JobRef) (metadata : RelayJobMetadata) (outcome : JobOutcome) (now : ℕ)
      (r : Relay) where
    abbrev used : ℕ
    used = (client_usage now (client_dir job.client r)).1

    write_object-outcome :
        let out = write_object x config job metadata outcome now r in
        ((e : RelayError) × (out.0 ≡ err e) × (out.1 ≡ r))
        ⊎ ((out.0 ≡ ok tt)
            × (length outcome.body ≤ config.max_object_len)
            × (used + length outcome.body ≤ config.max_bytes_per_client)
            × (lookup metadata.job_id (client_dir job.client out.1).bodies ≡ some outcome.body))
    unfolding write_object
    write_object-outcome =
        let dir : ClientDir = client_dir job.client r in
        elim (Bool-cases (ltb config.max_bytes_per_client (used + length outcome.body))) [
          | inl over ↦ simp (over, write_object) (inl (_, refl, refl))
          | inr fits ↦ elim (Bool-cases (ltb config.max_object_len (length outcome.body))) [
            | inl large ↦ simp (fits, large, write_object) (inl (_, refl, refl))
            | inr small ↦
                simp (fits, small, write_object)
                  (inr (
                    refl,
                    ground (arith, small),
                    ground (arith, fits),
                    ap (λ d. lookup metadata.job_id d.bodies) (client_dir-put job.client _ r)
                        ∙ lookup-insert_self metadata.job_id outcome.body dir.bodies,
                  ))
          ]
        ]

  -- The end of a job, where nothing comes between the check of the quotas and the write of the metadata:
  -- either it fails, and the spool is as it was; or the body fits the object limit and,
  -- with what the client's live jobs store, the storage quota, and the client's directory then holds the job
  -- as complete, with its length and the body.
  pub finish_job-outcome :
      (job : JobRef) (metadata : RelayJobMetadata) (outcome : JobOutcome) (now : ℕ) (r : Relay)
      → let out = finish_job x config job metadata outcome now r in
        ((e : RelayError) × (out.0 ≡ err e) × (out.1 ≡ r))
        ⊎ ((out.0 ≡ ok tt)
            × (length outcome.body ≤ config.max_object_len)
            × ((client_usage now (client_dir job.client r)).1 + length outcome.body
                ≤ config.max_bytes_per_client)
            × HoldsJob (client_dir job.client out.1) metadata.job_id outcome.body)
  unfolding finish_job
  finish_job-outcome job metadata outcome now r =
      let written = write_object x config job metadata outcome now r in
      elim (write_object-outcome job metadata outcome now r) [
        | inl (e, refused, same) ↦ simp (refused, finish_job) (inl (e, refl, same))
        | inr (passed, small, fits, object) ↦
            simp (passed, finish_job)
              (inr (
                refl,
                small,
                fits,
                complete_job-HoldsJob job metadata outcome now written.1 object,
              ))
      ]

  delete_job-gone :
      (client job_id : List ℕ) (r : Relay)
      → validate_job_id job_id ≡ ok tt
      → lookup job_id (client_dir client (delete_job x config client job_id r).1).jobs ≡ none
  delete_job-gone client job_id r valid =
      elim (Option-cases (lookup job_id (client_dir client r).jobs)) [
        | inl missing ↦ simp (delete_job-own x config client job_id valid r, missing)
        | inr (metadata, found) ↦
            let gone : lookup job_id (remove job_id (client_dir client r).jobs) ≡ none =
              lookup-remove job_id job_id (client_dir client r).jobs
              ∙ (rw (beq_refl job_id) refl) in
            simp (delete_job-own x config client job_id valid r, found)
              (ap (λ d. lookup job_id d.jobs)
                  (client_dir-put client (without_job job_id (client_dir client r)) r)
                ∙ gone)
      ]

  -- A job with a valid id that is deleted while its worker fetches comes back: when the fetch has ended and the quotas let it
  -- through, the client's directory holds the deleted job as complete.
  pub deleted_job_returns :
      (job : JobRef) (metadata : RelayJobMetadata) (outcome : JobOutcome) (now : ℕ) (r : Relay)
      → metadata.job_id ≡ job.job
      → validate_job_id job.job ≡ ok tt
      → let deleted = (delete_job x config job.client job.job r).1 in
        let out = finish_job x config job metadata outcome now deleted in
        (out.0 ≡ ok tt)
        → (lookup job.job (client_dir job.client deleted).jobs ≡ none)
          × HoldsJob (client_dir job.client out.1) job.job outcome.body
  deleted_job_returns job metadata outcome now r named valid done =
      let deleted : Relay = (delete_job x config job.client job.job r).1 in
      elim (finish_job-outcome job metadata outcome now deleted) [
        | inl (e, refused, same) ↦ absurd (cc (done, refused))
        | inr (finished, small, fits, holds) ↦ (
          delete_job-gone job.client job.job r valid,
          subst
              (λ id.
                HoldsJob
                  (client_dir job.client (finish_job x config job metadata outcome now deleted).1)
                  id outcome.body)
              named holds,
        )
      ]
