-- ===== src/Examples/Relaying.antt =====
-- ghostbro-server/src/relay.rs, ghostbro-client/src/main.rs: a job that is queued, finished, downloaded and
-- deleted.
use ghostbro.Base.{
  ℕ, ◌+◌, ◌≤◌, ◌≡◌, ◌≢◌, ◌⊎◌, refl, none, some, true, false, List, [], ◌∷◌, replicate, arith, All,
  bytes_eq,
}
use ghostbro.Base.Bytes.{IsByte}
use ghostbro.Base.Dict.{lookup, insert, remove}
use ghostbro.Base.Result.{ok, err}
use ghostbro.Keys.{key_id_hex}
use ghostbro.Protocol.{protocol_ghost_relay}
use ghostbro.Relay.{invalid_job_id, v4, Url, External, RelayConfig, RelayError}
use ghostbro.Relay.Guard.{validated, resolve_guard}
use ghostbro.Relay.Guard.Addresses.{
  IsAllowed, mapped, resolve_guard-IsAllowed, resolve_guard-mapped,
}
use ghostbro.Relay.Package.{all_bytes}
use ghostbro.Relay.Path.{
  metadata_of, join, walk, components, strip_suffix, place, place_in, metadata_path,
  primary_object_path, normalized_object_path,
}
use ghostbro.Relay.Wire.{ghost_relay_version, op_delete}
use ghostbro.Relay.Store.{
  read_metadata, remove_file, web_fetch, complete, RelayJobMetadata, JobRef, Relay, client_dir,
  client_usage, usage_of, validate_job_id, delete_job,
}
use ghostbro.Relay.Dispatch.{respond, dispatch_for}
use ghostbro.Relay.Dispatch.Isolation.{dispatch_for-isolated}
use ghostbro.Relay.Dispatch.Quota.{respond-Within}
use ghostbro.Relay.Worker.{JobOutcome, store_outcome, write_object, complete_job, finish_job}
use ghostbro.Relay.Worker.Jobs.{HoldsJob, finish_job-outcome, deleted_job_returns}
use ghostbro.Relay.Client.{relay_download}
use ghostbro.Relay.Client.Downloads.{Downloadable, relay_download-object}

abbrev external : External
external = record {
  is_utf8 = λ t. true;
  sha256_hex = λ t. replicate 64 b'a';
  parse_url = λ t. some (record { scheme = t; host = some t; port = some 80 });
  to_socket_addrs = λ host port. some (v4 16843009 ∷ []);
  trim = λ t. t;
  text = λ note. [];
  decimal = λ n. b'0' ∷ [];
  html_to_markdown = λ t. t;
  is_html = λ kind body. false;
}

abbrev config : RelayConfig
config = record {
  spool_dir = (b's' ∷ []) ∷ [];
  job_ttl_ms = 1000;
  max_jobs_per_client = 2;
  max_bytes_per_client = 100;
  max_object_len = 50;
  allow_loopback = false;
}

abbrev key : List ℕ
key = 1 ∷ 2 ∷ 3 ∷ 4 ∷ 5 ∷ 6 ∷ 7 ∷ 8 ∷ []

abbrev other_key : List ℕ
other_key = 9 ∷ 2 ∷ 3 ∷ 4 ∷ 5 ∷ 6 ∷ 7 ∷ 8 ∷ []

abbrev job : RelayJobMetadata
job = record {
  job_id = b'a' ∷ b'1' ∷ [];
  kind = web_fetch;
  status = complete;
  source = [];
  normalize = false;
  http_status = some 200;
  content_type = none;
  body_len = 3;
  normalized_len = none;
  sha256 = none;
  error = none;
  created_at_ms = 100;
  updated_at_ms = 100;
  expires_at_ms = 1100;
}

abbrev page : List ℕ
page = 60 ∷ 61 ∷ 62 ∷ []

abbrev relay : Relay
relay = record {
  spool =
      (
        b'c' ∷ [],
        record { jobs = (job.job_id, job) ∷ []; bodies = (job.job_id, page) ∷ []; normalized = [] },
      )
      ∷ [];
  queue = [];
}

-- A request to list, and one that deletes the job.
abbrev listing : List ℕ
listing = 0x47 ∷ 1 ∷ 2 ∷ []

downloadable : Downloadable external (b'c' ∷ []) 500 relay job.job_id page
unfolding lookup validate_job_id all_bytes
downloadable = record {
  metadata = job;
  short = omega arith;
  utf8 = refl;
  valid = refl;
  found = refl;
  live = refl;
  finished = refl;
  object = refl;
  small = omega arith;
}

relay_download-object_example :
    relay_download
      (λ request. (respond external config key (b'c' ∷ []) 500 request relay).0)
      1
      job.job_id
      0
      0
      []
    ≡ some (ok page)
relay_download-object_example =
    relay_download-object external config key (b'c' ∷ []) 500 relay job.job_id page 1 downloadable
      (omega arith) (omega arith)

key-IsByte : All IsByte key
key-IsByte = (
  omega arith,
  (
    omega arith,
    (omega arith, (omega arith, (omega arith, (omega arith, (omega arith, (omega arith, tt)))))),
  ),
)

other_key-IsByte : All IsByte other_key
other_key-IsByte = (
  omega arith,
  (
    omega arith,
    (omega arith, (omega arith, (omega arith, (omega arith, (omega arith, (omega arith, tt)))))),
  ),
)

keys_differ : other_key ≢ key
keys_differ e = absurd (ground (arith, e))

-- An id that climbs to the job `x` of the client `d`, and a request to delete it.
abbrev climbing : List ℕ
climbing =
    b'.' ∷ b'.' ∷ b'/' ∷ b'.' ∷ b'.' ∷ b'/' ∷ b'd' ∷ b'/' ∷ b'j' ∷ b'o' ∷ b'b' ∷ b's' ∷ b'/' ∷ b'x'
    ∷ []

climbs :
    place config.spool_dir (metadata_path ((b'c' ∷ []) ∷ config.spool_dir) climbing)
    ≡ metadata_of (b'd' ∷ []) (b'x' ∷ [])
unfolding place place_in metadata_path join walk components strip_suffix
climbs = refl

is_refused : validate_job_id climbing ≡ err invalid_job_id
unfolding validate_job_id all_bytes
is_refused = refl

abbrev deletion : List ℕ
deletion = protocol_ghost_relay ∷ ghost_relay_version ∷ op_delete ∷ 0 ∷ 14 ∷ climbing

dispatch_for-isolated_example :
    let after : Relay = (dispatch_for external config key 500 deletion relay).1 in
    (lookup (key_id_hex other_key) after.spool ≡ lookup (key_id_hex other_key) relay.spool)
    × ((dispatch_for external config other_key 600 listing after).0
        ≡ (dispatch_for external config other_key 600 listing relay).0)
dispatch_for-isolated_example =
    dispatch_for-isolated external config key other_key 500 600 deletion listing relay refl refl
      key-IsByte other_key-IsByte keys_differ

respond-Within_example :
    (client_usage 500
      (client_dir (b'c' ∷ []) (respond external config key (b'c' ∷ []) 500 listing relay).1)).0
    ≤ 2
respond-Within_example =
    respond-Within external config key (b'c' ∷ []) 500 relay listing
      (unfold client_usage usage_of lookup in omega arith)

abbrev link : Url
link = record { scheme = []; host = some page; port = some 80 }

guarded : resolve_guard external link false ≡ ok (v4 16843009 ∷ [])
unfolding resolve_guard validated
guarded = refl

resolve_guard-IsAllowed_example :
    (host : List ℕ) × (port : ℕ) × (some page ≡ some host)
    × (some 80 ≡ some port)
    × (some (v4 16843009 ∷ []) ≡ some (v4 16843009 ∷ []))
    × (v4 16843009 ∷ [] ≢ [])
    × All (IsAllowed false) (v4 16843009 ∷ [])
resolve_guard-IsAllowed_example =
    resolve_guard-IsAllowed external link false (v4 16843009 ∷ []) guarded

-- A resolver that answers with the IPv6 form of 127.0.0.1.
abbrev rebinding : External
rebinding = record external { to_socket_addrs = λ host port. some (mapped 2130706433 ∷ []) }

resolve_guard-mapped_example : resolve_guard rebinding link false ≡ ok (mapped 2130706433 ∷ [])
resolve_guard-mapped_example =
    resolve_guard-mapped rebinding link page 80 2130706433 (omega arith) refl refl refl

abbrev reference : JobRef
reference = record { client = b'c' ∷ []; job = job.job_id }

abbrev outcome : JobOutcome
outcome = record { body = page; http_status = some 200; content_type = none }

finish_job-outcome_example :
    let out = finish_job external config reference job outcome 600 relay in
    ((e : RelayError) × (out.0 ≡ err e) × (out.1 ≡ relay))
    ⊎ ((out.0 ≡ ok tt)
        × (3 ≤ 50)
        × ((client_usage 600 (client_dir (b'c' ∷ []) relay)).1 + 3 ≤ 100)
        × HoldsJob (client_dir (b'c' ∷ []) out.1) job.job_id page)
finish_job-outcome_example = finish_job-outcome external config reference job outcome 600 relay

deleted_job_returns_example :
    let deleted = (delete_job external config (b'c' ∷ []) job.job_id relay).1 in
    let out = finish_job external config reference job outcome 600 deleted in
    (lookup job.job_id (client_dir (b'c' ∷ []) deleted).jobs ≡ none)
    × HoldsJob (client_dir (b'c' ∷ []) out.1) job.job_id page
deleted_job_returns_example =
    deleted_job_returns external config reference job outcome 600 relay refl
      (unfold validate_job_id all_bytes in refl)
      (unfold finish_job write_object complete_job store_outcome delete_job client_usage usage_of
          lookup insert remove read_metadata remove_file place place_in metadata_path
          primary_object_path normalized_object_path join walk components strip_suffix in
        refl)
