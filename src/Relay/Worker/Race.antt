-- ===== src/Relay/Worker/Race.antt =====
-- ghostbro-server/src/relay.rs: two workers that end jobs of one client.
use ghostbro.Base.{ℕ, ◌+◌, ◌≤◌, ◌≡◌, ap, ◌∙◌, List, length, bytes_eq, le→ltb}
use ghostbro.Base.Dict.{insert}
use ghostbro.Base.Result.{ok}
use ghostbro.Relay.{External, RelayConfig}
use ghostbro.Relay.Store.{
  ClientDir, JobRef, Relay, RelayJobMetadata, client_dir, put_dir, client_usage,
}
use ghostbro.Relay.Store.Files.{client_dir-put}
use ghostbro.Relay.Worker.{JobOutcome, write_object}

module _ (x : External) (config : RelayConfig) (now : ℕ) where
  abbrev used : List ℕ → Relay → ℕ
  used client r = (client_usage now (client_dir client r)).1

  -- A body that fits what is used before it.
  abbrev Fits : List ℕ → JobOutcome → Relay → Type 0
  Fits client outcome r =
      (used client r + length outcome.body ≤ config.max_bytes_per_client)
      × (length outcome.body ≤ config.max_object_len)

  abbrev with_body : JobRef → RelayJobMetadata → JobOutcome → Relay → Relay
  with_body job metadata outcome r =
      let dir : ClientDir = client_dir job.client r in
      put_dir job.client (record dir { bodies = insert metadata.job_id outcome.body dir.bodies }) r

  write_object-Fits :
      (job : JobRef) (metadata : RelayJobMetadata) (outcome : JobOutcome) (r : Relay)
      → Fits job.client outcome r
      → write_object x config job metadata outcome now r ≡ (ok tt, with_body job metadata outcome r)
  unfolding write_object
  write_object-Fits job metadata outcome r (room, small) =
      let under =
        le→ltb config.max_bytes_per_client (used job.client r + length outcome.body) room in
      let fits = le→ltb config.max_object_len (length outcome.body) small in
      simp (under, fits, write_object)

  -- A body that has been written does not count before its metadata is.
  used-with_body :
      (job : JobRef) (metadata : RelayJobMetadata) (outcome : JobOutcome) (r : Relay)
      → used job.client (with_body job metadata outcome r) ≡ used job.client r
  unfolding client_usage
  used-with_body job metadata outcome r =
      ap (λ dir. (client_usage now dir).1) (client_dir-put job.client _ r)

  -- Two results for one client, each of which fits with what the client uses: both pass the check where
  -- neither job is complete before the other passes it, also where they do not fit together.
  both_pass :
      (client id other : List ℕ) (metadata metadata' : RelayJobMetadata)
      (outcome outcome' : JobOutcome) (r : Relay)
      → Fits client outcome r
      → Fits client outcome' r
      → let one : JobRef = record { client = client; job = id } in
        let two : JobRef = record { client = client; job = other } in
        let first = write_object x config one metadata outcome now r in
        (first.0 ≡ ok tt) × ((write_object x config two metadata' outcome' now first.1).0 ≡ ok tt)
  both_pass client id other metadata metadata' outcome outcome' r fits fits' =
      let one : JobRef = record { client = client; job = id } in
      let two : JobRef = record { client = client; job = other } in
      let first = write_object-Fits one metadata outcome r fits in
      let same = used-with_body one metadata outcome r in
      let still : Fits client outcome' (with_body one metadata outcome r) =
        (rw same fits'.0, fits'.1) in
      (
        ap (λ w. w.0) first,
        ap (λ w. (write_object x config two metadata' outcome' now w.1).0) first
            ∙ ap (λ w. w.0)
                (write_object-Fits two metadata' outcome' (with_body one metadata outcome r) still),
      )
