-- ===== src/Relay/Store/Files.antt =====
-- ghostbro-server/src/relay.rs: what the requests read and remove for a job id that is valid.
use ghostbro.Base.{
  ℕ, ◌≡◌, refl, sym, ap, ◌∙◌, Option, none, some, Bool, true, false, List, [], ◌∷◌, arith, All,
  ◌||◌, not, nat_beq, leb, length, if◌then◌else◌, bytes_eq, beq_refl, Eq, ◌==◌, Bool-cases, inl,
  inr,
}
use ghostbro.Base.Dict.{Dict, lookup, insert, remove, lookup-insert_self}
use ghostbro.Base.Result.{Result, ok, fail_if, >>=-eq-ok, fail_if-eq-ok}
use ghostbro.Relay.{
  External, RelayConfig, RelayError, invalid_job_id, job_not_found, deleted, no_normalized,
  job_expired, job_failed, job_not_ready,
}
use ghostbro.Relay.Package.{all_bytes, is_ascii_hexdigit}
use ghostbro.Relay.Path.{
  metadata_of, markdown_of, FilePath, place, metadata_path, primary_object_path,
  normalized_object_path,
}
use ghostbro.Relay.Path.JobId.{
  IsPlain, place-metadata_path, place-primary_object_path, place-normalized_object_path,
}
use ghostbro.Relay.Wire.{
  status_ok, status_not_found, status_failed, status_pending, relay_bytes_response,
  artifact_normalized, relay_status_response,
}
use ghostbro.Relay.Store.{
  Relay, RelayJobMetadata, ClientDir, or_empty, client_dir, put_dir, without_job, validate_job_id,
  metadata_in, object_in, remove_in, read_metadata, read_object, remove_file, download_object,
  download_job, delete_job, slice_of, queued, running, complete, failed,
}

abbrev is_id_byte : ℕ → Bool
is_id_byte b = is_ascii_hexdigit b || nat_beq b b'-'

all_bytes-IsPlain : (id : List ℕ) → all_bytes is_id_byte id ≡ true → All IsPlain id
unfolding all_bytes
all_bytes-IsPlain [] h = tt
all_bytes-IsPlain (b ∷ id) h =
    ((ground (arith, h), ground (arith, h)), all_bytes-IsPlain id (ground (arith, h)))

not-false : (b : Bool) → not b ≡ false → b ≡ true
not-false true h = refl
not-false false h = cc

-- A valid id holds no slash and no dot.
pub validate_job_id-IsPlain : (id : List ℕ) → validate_job_id id ≡ ok tt → All IsPlain id
unfolding validate_job_id
validate_job_id-IsPlain id e =
    let (u, filled, e') = >>=-eq-ok (fail_if (nat_beq (length id) 0) invalid_job_id) _ e in
    all_bytes-IsPlain id (not-false (all_bytes is_id_byte id) (fail_if-eq-ok _ invalid_job_id e'))

remove-remove {ℓ κ} :
    {K : Type ℓ} {V : Type κ} ⦃e : Eq K⦄ (k : K) (m : Dict K V) → remove k (remove k m) ≡ remove k m
unfolding remove
remove-remove k [] = refl
remove-remove k ((j, v) ∷ m) = elim (Bool-cases (j == k)) [
  | inl same ↦ rw same (remove-remove k m)
  | inr differ ↦ rw (differ, differ, remove-remove k m) refl
]

insert-insert {ℓ κ} :
    {K : Type ℓ} {V : Type κ} ⦃e : Eq K⦄ (k : K) (v w : V) (m : Dict K V)
    → insert k v (insert k w m) ≡ insert k v m
unfolding insert remove
insert-insert k v w m = rw (beq_refl k, remove-remove k m) refl

pub put_dir-put :
    (client : List ℕ) (dir old : ClientDir) (r : Relay)
    → put_dir client dir (put_dir client old r) ≡ put_dir client dir r
put_dir-put client dir old r =
    ap (λ spool. record r { spool = spool }) (insert-insert client dir old r.spool)

pub client_dir-put :
    (client : List ℕ) (dir : ClientDir) (r : Relay) → client_dir client (put_dir client dir r) ≡ dir
client_dir-put client dir r = ap or_empty (lookup-insert_self client dir r.spool)

module _ (spool_dir : FilePath) (client id : List ℕ) (plain : All IsPlain id) where
  pub read_metadata-own :
      (r : Relay)
      → read_metadata spool_dir (metadata_path (client ∷ spool_dir) id) r
        ≡ lookup id (client_dir client r).jobs
  unfolding read_metadata
  read_metadata-own r = ap (λ p. metadata_in p r) (place-metadata_path spool_dir client id plain)

  pub read_object-primary :
      (r : Relay)
      → read_object spool_dir (primary_object_path (client ∷ spool_dir) id) r
        ≡ lookup id (client_dir client r).bodies
  unfolding read_object
  read_object-primary r =
      ap (λ p. object_in p r) (place-primary_object_path spool_dir client id plain)

  pub read_object-normalized :
      (r : Relay)
      → read_object spool_dir (normalized_object_path (client ∷ spool_dir) id) r
        ≡ lookup id (client_dir client r).normalized
  unfolding read_object
  read_object-normalized r =
      ap (λ p. object_in p r) (place-normalized_object_path spool_dir client id plain)

  -- The three files of a job, removed in the order of `delete`.
  remove_file-all :
      (r : Relay)
      → remove_file spool_dir (metadata_path (client ∷ spool_dir) id) (
          remove_file spool_dir
            (normalized_object_path (client ∷ spool_dir) id)
            (remove_file spool_dir (primary_object_path (client ∷ spool_dir) id) r))
        ≡ put_dir client (without_job id (client_dir client r)) r
  unfolding remove_file
  remove_file-all r =
      let dir : ClientDir = client_dir client r in
      let one : ClientDir = record dir { bodies = remove id dir.bodies } in
      let two : ClientDir = record one { normalized = remove id dir.normalized } in
      let three : ClientDir = without_job id dir in
      let second : remove_in (markdown_of client id) (put_dir client one r) ≡ put_dir client two r =
        ap
          (λ d.
            put_dir client (record d { normalized = remove id d.normalized })
              (put_dir client one r))
          (client_dir-put client one r)
        ∙ put_dir-put client two one r in
      let third : remove_in (metadata_of client id) (put_dir client two r)
          ≡ put_dir client three r =
        ap (λ d. put_dir client (record d { jobs = remove id d.jobs }) (put_dir client two r))
          (client_dir-put client two r)
        ∙ put_dir-put client three two r in
      ap
        (λ p. remove_in p (
          remove_in (place spool_dir (normalized_object_path (client ∷ spool_dir) id))
            (remove_in (place spool_dir (primary_object_path (client ∷ spool_dir) id)) r)))
        (place-metadata_path spool_dir client id plain)
      ∙ ap
          (λ p. remove_in (metadata_of client id) (
            remove_in p
              (remove_in (place spool_dir (primary_object_path (client ∷ spool_dir) id)) r)))
          (place-normalized_object_path spool_dir client id plain)
      ∙ ap
          (λ p.
            remove_in (metadata_of client id) (remove_in (markdown_of client id) (remove_in p r)))
          (place-primary_object_path spool_dir client id plain)
      ∙ ap (remove_in (metadata_of client id)) second
      ∙ third

module _ (x : External) (config : RelayConfig) (client id : List ℕ)
    (valid : validate_job_id id ≡ ok tt) where
  plain : All IsPlain id
  plain = validate_job_id-IsPlain id valid

  -- `delete`, by the metadata that is read and the spool after the removals.
  abbrev delete_answer : Relay → Option RelayJobMetadata → Relay → List ℕ × Relay
  delete_answer r found left = elim found [
    | none ↦ (relay_status_response x status_not_found job_not_found, r)
    | some metadata ↦ (relay_status_response x status_ok deleted, left)
  ]

  -- `delete` of a valid id removes the job from the client's own directory.
  pub delete_job-own :
      (r : Relay)
      → delete_job x config client id r ≡ elim (lookup id (client_dir client r).jobs) [
        | none ↦ (relay_status_response x status_not_found job_not_found, r)
        | some metadata ↦ (
          relay_status_response x status_ok deleted,
          put_dir client (without_job id (client_dir client r)) r,
        )
      ]
  unfolding delete_job
  delete_job-own r =
      ap (delete_answer r _) (remove_file-all config.spool_dir client id plain r)
      ∙ ap
          (λ found. delete_answer r found (put_dir client (without_job id (client_dir client r)) r))
          (read_metadata-own config.spool_dir client id plain r)

  abbrev object_answer :
      RelayJobMetadata → ℕ → ℕ → ℕ → Option (List ℕ) → Option (List ℕ) → Result RelayError (List ℕ)
  object_answer metadata offset max_len artifact normalized primary =
      if nat_beq artifact artifact_normalized
      then elim metadata.normalized_len [
        | none ↦ ok (relay_status_response x status_not_found no_normalized)
        | some len ↦ slice_of normalized offset max_len
      ]
      else slice_of primary offset max_len

  pub download_object-own :
      (metadata : RelayJobMetadata) (offset max_len artifact : ℕ) (r : Relay)
      → download_object x config client id metadata offset max_len artifact r
        ≡ object_answer metadata offset max_len artifact
            (lookup id (client_dir client r).normalized)
            (lookup id (client_dir client r).bodies)
  unfolding download_object
  download_object-own metadata offset max_len artifact r =
      ap
        (λ o.
          object_answer metadata offset max_len artifact o
            (read_object config.spool_dir (primary_object_path (client ∷ config.spool_dir) id) r))
        (read_object-normalized config.spool_dir client id plain r)
      ∙ ap (object_answer metadata offset max_len artifact _)
          (read_object-primary config.spool_dir client id plain r)

  module _ (offset max_len artifact now : ℕ) (r s : Relay)
      (same : client_dir client r ≡ client_dir client s) where
    -- `download`, by what a complete job answers and the metadata that is read.
    abbrev job_answer :
        (RelayJobMetadata → Result RelayError (List ℕ))
        → Option RelayJobMetadata
        → Result RelayError (List ℕ)
    job_answer complete_answer found = elim found [
      | none ↦ ok (relay_status_response x status_not_found job_not_found)
      | some metadata ↦
          if leb metadata.expires_at_ms now
          then ok (relay_status_response x status_not_found job_expired)
          else elim metadata.status [
            | queued ↦ ok (relay_status_response x status_pending job_not_ready)
            | running ↦ ok (relay_status_response x status_pending job_not_ready)
            | failed ↦ ok (elim metadata.error [
              | none ↦ relay_status_response x status_failed job_failed
              | some message ↦ relay_bytes_response status_failed message
            ])
            | complete ↦ complete_answer metadata
          ]
    ]

    download_object-same :
        (metadata : RelayJobMetadata)
        → download_object x config client id metadata offset max_len artifact r
          ≡ download_object x config client id metadata offset max_len artifact s
    download_object-same metadata =
        download_object-own metadata offset max_len artifact r
        ∙ ap
            (λ dir.
              object_answer metadata offset max_len artifact (lookup id dir.normalized)
                (lookup id dir.bodies))
            same
        ∙ sym (download_object-own metadata offset max_len artifact s)

    read_metadata-same :
        let path : FilePath = metadata_path (client ∷ config.spool_dir) id in
        read_metadata config.spool_dir path r ≡ read_metadata config.spool_dir path s
    read_metadata-same =
        read_metadata-own config.spool_dir client id plain r
        ∙ ap (λ dir. lookup id dir.jobs) same
        ∙ sym (read_metadata-own config.spool_dir client id plain s)

    -- `download` of a valid id reads the client's own directory only.
    pub download_job-same :
        download_job x config client id offset max_len artifact now r
        ≡ download_job x config client id offset max_len artifact now s
    unfolding download_job
    download_job-same =
        ap
          (job_answer
            (λ metadata. download_object x config client id metadata offset max_len artifact r))
          read_metadata-same
        ∙ ap
            (λ complete_answer.
              job_answer complete_answer
                (read_metadata config.spool_dir (metadata_path (client ∷ config.spool_dir) id) s))
            (λ i metadata. download_object-same metadata i)
