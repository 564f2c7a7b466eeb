-- ===== src/Relay.antt =====
-- ghostbro-server/src/relay.rs: what the relay engine takes from elsewhere, its configuration and its
-- errors. The reqwest, sha2 and toml crates, name resolution and the text of messages are parameters.
pub mod Wire
pub mod Guard
pub mod Package
pub mod Path
pub mod Store
pub mod Listing
pub mod Dispatch
pub mod Worker
pub mod Client
use ghostbro.Base.{ℕ, ◌*◌, Option, List, Bool}

-- `IpAddr`, as numbers of 32 and 128 bits.
pub data Ip : Type 0 where
  v4 v6 : ℕ → Ip

-- What is asked of a parsed URL: `scheme()`, `host_str()`, `port_or_known_default()`.
pub record Url : Type 0 where
  pub scheme : List ℕ
  pub host : Option (List ℕ)
  pub port : Option ℕ

-- The messages of responses.
pub data Note : Type 0 where
  invalid_header unsupported_operation internal_error job_not_found job_expired job_not_ready : Note
  job_failed no_normalized deleted storage_quota_reached : Note
  job_quota_reached : ℕ → ℕ → Note

pub record External : Type 0 where
  pub is_utf8 : List ℕ → Bool
  -- `format!("{:x}", Sha256::digest(..))`
  pub sha256_hex : List ℕ → List ℕ
  pub parse_url : List ℕ → Option Url
  -- `(host, port).to_socket_addrs()`
  pub to_socket_addrs : List ℕ → ℕ → Option (List Ip)
  -- `str::trim`
  pub trim : List ℕ → List ℕ
  pub text : Note → List ℕ
  -- `format!("{}", n)`
  pub decimal : ℕ → List ℕ
  pub html_to_markdown : List ℕ → List ℕ
  pub is_html : Option (List ℕ) → List ℕ → Bool

pub record RelayConfig : Type 0 where
  -- The components of the path, from the last to the first.
  pub spool_dir : List (List ℕ)
  pub job_ttl_ms : ℕ
  pub max_jobs_per_client : ℕ
  pub max_bytes_per_client : ℕ
  pub max_object_len : ℕ
  pub allow_loopback : Bool

pub data RelayError : Type 0 where
  truncated field_too_long not_utf8 invalid_url unsupported_scheme no_host no_port : RelayError
  not_resolved disallowed_address invalid_job_id no_object unsupported_ecosystem : RelayError
  invalid_name invalid_version version_required malformed_spec fetch_failed : RelayError
  storage_quota_exceeded object_too_large : RelayError
