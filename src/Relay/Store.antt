-- ===== src/Relay/Store.antt =====
-- ghostbro-server/src/relay.rs: the spool directory and the requests on it. A client's directory is its
-- metadata files and its objects, by job id; a system call on them succeeds unless the file is missing.
-- A client is named by the hexadecimal form of its key id. A request names a job by any bytes, and reads and
-- removes what the path with those bytes reaches, also in another directory. The ids that the server makes
-- are hexadecimal digits, and what it writes is written under the id.
pub mod Files
use ghostbro.Base.{
  ℕ, suc, ◌+◌, ◌-◌, ◌%◌, ◌^◌, min, Option, none, some, List, [], ◌∷◌, ◌++◌, Bool, ◌||◌, not,
  if◌then◌else◌, leb, nat_beq, length, take, drop, bytes_eq,
}
use ghostbro.Base.Bytes.{to_be_bytes}
use ghostbro.Base.Dict.{Dict, lookup, insert, remove}
use ghostbro.Base.Result.{Result, ok, err, ◌>>◌, fail_if}
use ghostbro.Relay.{
  External, RelayConfig, RelayError, no_object, invalid_job_id, job_not_found, job_expired,
  job_not_ready, job_failed, no_normalized, deleted, storage_quota_reached, job_quota_reached,
}
use ghostbro.Relay.Wire.{
  status_ok, status_pending, status_not_found, status_failed, status_quota, artifact_normalized,
  relay_header, relay_bytes_response, relay_status_response,
}
use ghostbro.Relay.Path.{
  FilePath, Place, metadata_of, body_of, markdown_of, elsewhere, place, metadata_path,
  primary_object_path, normalized_object_path,
}
use ghostbro.Relay.Package.{all_bytes, is_ascii_hexdigit}

pub data JobStatus : Type 0 where
  queued running complete failed : JobStatus

pub data JobKind : Type 0 where
  web_fetch git_mirror package_fetch : JobKind

pub record RelayJobMetadata : Type 0 where
  pub job_id : List ℕ
  pub kind : JobKind
  pub status : JobStatus
  pub source : List ℕ
  pub normalize : Bool
  pub http_status : Option ℕ
  pub content_type : Option (List ℕ)
  pub body_len : ℕ
  pub normalized_len : Option ℕ
  pub sha256 : Option (List ℕ)
  pub error : Option (List ℕ)
  pub created_at_ms : ℕ
  pub updated_at_ms : ℕ
  pub expires_at_ms : ℕ

-- `jobs/<id>.toml`, `objects/<id>.body`, `objects/<id>.md`
pub record ClientDir : Type 0 where
  pub jobs : Dict (List ℕ) RelayJobMetadata
  pub bodies : Dict (List ℕ) (List ℕ)
  pub normalized : Dict (List ℕ) (List ℕ)

-- `JobRef`
pub record JobRef : Type 0 where
  pub client : List ℕ
  pub job : List ℕ

-- The spool, and the queue of the workers.
pub record Relay : Type 0 where
  pub spool : Dict (List ℕ) ClientDir
  pub queue : List JobRef

abbrev pub empty_dir : ClientDir
empty_dir = record { jobs = []; bodies = []; normalized = [] }

abbrev pub or_empty : Option ClientDir → ClientDir
or_empty none = empty_dir
or_empty (some dir) = dir

-- `self.client_dir(key_id)`, read; a directory that does not exist has no files.
abbrev pub client_dir : List ℕ → Relay → ClientDir
client_dir client r = or_empty (lookup client r.spool)

abbrev pub put_dir : List ℕ → ClientDir → Relay → Relay
put_dir client dir r = record r { spool = insert client dir r.spool }

unfoldable pub validate_job_id : List ℕ → Result RelayError (Unit {0})
validate_job_id job_id = do
  fail_if (nat_beq (length job_id) 0) invalid_job_id
  fail_if (not (all_bytes (λ b. is_ascii_hexdigit b || nat_beq b b'-') job_id)) invalid_job_id

abbrev pub or_none : Option ℕ → ℕ
or_none none = 0
or_none (some n) = n

-- A job that is not expired, and its bytes.
abbrev pub is_live : ℕ → RelayJobMetadata → Bool
is_live now metadata = not (leb metadata.expires_at_ms now)

abbrev pub stored : RelayJobMetadata → ℕ
stored metadata = metadata.body_len + or_none metadata.normalized_len

-- The loop over the directory: jobs and bytes.
unfoldable pub usage_of : ℕ → Dict (List ℕ) RelayJobMetadata → ℕ × ℕ
usage_of now [] = (0, 0)
usage_of now ((id, metadata) ∷ jobs) =
    let (count, bytes) = usage_of now jobs in
    if is_live now metadata then (suc count, bytes + stored metadata) else (count, bytes)

unfoldable pub client_usage : ℕ → ClientDir → ℕ × ℕ
client_usage now dir = usage_of now dir.jobs

-- The slice of an object that a download answers with.
unfoldable pub download_slice : List ℕ → ℕ → ℕ → List ℕ
download_slice body offset max_len =
    let total = length body in
    let start = min offset total in
    let stop = min total (start + max_len) in
    let terminal = if leb total stop then 1 else 0 in
    relay_header status_ok
    ++ (terminal
        ∷ (to_be_bytes 4 (total % 2 ^ 32)
            ++ (to_be_bytes 4 ((stop - start) % 2 ^ 32) ++ take (stop - start) (drop start body))))

-- `fs::read(object)?`, and the slice.
abbrev pub slice_of : Option (List ℕ) → ℕ → ℕ → Result RelayError (List ℕ)
slice_of none offset max_len = err no_object
slice_of (some bytes) offset max_len = ok (download_slice bytes offset max_len)

-- The three files of a job are removed; the objects may be missing.
abbrev pub without_job : List ℕ → ClientDir → ClientDir
without_job job_id dir = record {
  jobs = remove job_id dir.jobs;
  bodies = remove job_id dir.bodies;
  normalized = remove job_id dir.normalized;
}

abbrev pub metadata_in : Place → Relay → Option RelayJobMetadata
metadata_in (metadata_of client id) r = lookup id (client_dir client r).jobs
metadata_in (body_of client id) r = none
metadata_in (markdown_of client id) r = none
metadata_in elsewhere r = none

-- `read_metadata`, on the file that a path reaches.
unfoldable pub read_metadata : FilePath → FilePath → Relay → Option RelayJobMetadata
read_metadata spool_dir path r = metadata_in (place spool_dir path) r

abbrev pub object_in : Place → Relay → Option (List ℕ)
object_in (metadata_of client id) r = none
object_in (body_of client id) r = lookup id (client_dir client r).bodies
object_in (markdown_of client id) r = lookup id (client_dir client r).normalized
object_in elsewhere r = none

-- `fs::read` of an object.
unfoldable pub read_object : FilePath → FilePath → Relay → Option (List ℕ)
read_object spool_dir path r = object_in (place spool_dir path) r

abbrev pub remove_in : Place → Relay → Relay
remove_in (metadata_of client id) r =
    let dir = client_dir client r in put_dir client (record dir { jobs = remove id dir.jobs }) r
remove_in (body_of client id) r =
    let dir = client_dir client r in put_dir client (record dir { bodies = remove id dir.bodies }) r
remove_in (markdown_of client id) r =
    let dir = client_dir client r in
    put_dir client (record dir { normalized = remove id dir.normalized }) r
remove_in elsewhere r = r

-- `fs::remove_file`; a file that is missing is left.
unfoldable pub remove_file : FilePath → FilePath → Relay → Relay
remove_file spool_dir path r = remove_in (place spool_dir path) r

module _ (x : External) (config : RelayConfig) where
  -- `self.client_dir(key_id)`
  abbrev pub client_path : List ℕ → FilePath
  client_path client = client ∷ config.spool_dir

  -- `relay_job_id`
  unfoldable pub relay_job_id : List ℕ → List ℕ → ℕ → List ℕ
  relay_job_id key_id source now_ms =
      take 24 (x.sha256_hex (key_id ++ (source ++ to_be_bytes 8 now_ms)))

  abbrev pub new_job : List ℕ → JobKind → List ℕ → Bool → ℕ → RelayJobMetadata
  new_job job_id kind source normalize now = record {
    job_id = job_id;
    kind = kind;
    status = queued;
    source = source;
    normalize = normalize;
    http_status = none;
    content_type = none;
    body_len = 0;
    normalized_len = none;
    sha256 = none;
    error = none;
    created_at_ms = now;
    updated_at_ms = now;
    expires_at_ms = now + config.job_ttl_ms;
  }

  unfoldable pub enqueue : List ℕ → List ℕ → JobKind → List ℕ → Bool → ℕ → Relay → List ℕ × Relay
  enqueue key_id client kind source normalize now r =
      let dir = client_dir client r in
      let (job_count, byte_total) = client_usage now dir in
      let job_id = relay_job_id key_id source now in
      let dir' = record dir {
        jobs = insert job_id (new_job job_id kind source normalize now) dir.jobs;
      } in
      if leb config.max_jobs_per_client job_count
      then (
        relay_status_response x status_quota
            (job_quota_reached job_count config.max_jobs_per_client),
        r,
      )
      else if leb config.max_bytes_per_client byte_total
      then (relay_status_response x status_quota storage_quota_reached, r)
      else (
        relay_bytes_response status_ok job_id,
        record (put_dir client dir' r) {
          queue = r.queue ++ record { client = client; job = job_id } ∷ [];
        },
      )

  -- The object of a complete job.
  unfoldable pub download_object :
      List ℕ → List ℕ → RelayJobMetadata → ℕ → ℕ → ℕ → Relay → Result RelayError (List ℕ)
  download_object client job_id metadata offset max_len artifact r =
      let normalized = normalized_object_path (client_path client) job_id in
      let primary = primary_object_path (client_path client) job_id in
      if nat_beq artifact artifact_normalized
      then elim metadata.normalized_len [
        | none ↦ ok (relay_status_response x status_not_found no_normalized)
        | some len ↦ slice_of (read_object config.spool_dir normalized r) offset max_len
      ]
      else slice_of (read_object config.spool_dir primary r) offset max_len

  unfoldable pub download_job : List ℕ → List ℕ → ℕ → ℕ → ℕ → ℕ → Relay → Result RelayError (List ℕ)
  download_job client job_id offset max_len artifact now r =
      elim (read_metadata config.spool_dir (metadata_path (client_path client) job_id) r) [
        | none ↦ ok (relay_status_response x status_not_found job_not_found)
        | some metadata ↦
            if leb metadata.expires_at_ms now
            then ok (relay_status_response x status_not_found job_expired)
            else elim metadata.status [
              | queued ↦ ok (relay_status_response x status_pending job_not_ready)
              | running ↦ ok (relay_status_response x status_pending job_not_ready)
              | failed ↦ ok (elim metadata.error [
                | none ↦ relay_status_response x status_failed job_failed
                | some message ↦ relay_bytes_response status_failed message
              ])
              | complete ↦ download_object client job_id metadata offset max_len artifact r
            ]
      ]

  unfoldable pub delete_job : List ℕ → List ℕ → Relay → List ℕ × Relay
  delete_job client job_id r =
      let path = metadata_path (client_path client) job_id in
      let primary = primary_object_path (client_path client) job_id in
      let normalized = normalized_object_path (client_path client) job_id in
      let r₁ = remove_file config.spool_dir primary r in
      let r₂ = remove_file config.spool_dir normalized r₁ in
      elim (read_metadata config.spool_dir path r) [
        | none ↦ (relay_status_response x status_not_found job_not_found, r)
        | some metadata ↦
            (relay_status_response x status_ok deleted, remove_file config.spool_dir path r₂)
      ]
