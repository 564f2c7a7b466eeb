-- ===== src/Verifier.antt =====
-- ghostbro-server/src/spa.rs: the SPA verifier, its replay counters and their file. Time, the observed
-- source and the faults of the file system are arguments; a call returns its result with the verifier
-- and the disk after it. A lock or a `&mut self` lets no other call in between.
pub mod Authorize
pub mod Counters
pub mod Table
pub mod Restart
pub mod Exhausted
use ghostbro.Base.{
  ℕ, ◌-◌, ◌*◌, ◌^◌, List, [], ◌∷◌, ◌++◌, Option, none, some, Bool, true, false, not, ◌&&◌, min,
  if◌then◌else◌, ltb, leb, bytes_beq, bytes_eq,
}
use ghostbro.Base.Dict.{Dict, lookup, insert, remove, contains_key}
use ghostbro.Base.Result.{Result, ok, err, ◌>>=◌, ◌>>◌, fail_if, ok_or, map_err}
use ghostbro.Crypto.{Crypto}
use ghostbro.Disk.{Disk, FilePath, Faults, Toml}
use ghostbro.Keys.{AuthorizedClient, ClientTier, full, decoy, key_id_hex, key_id_from_hex}
use ghostbro.Packet.{KeyId, Ipv4Addr, SpaMode, SpaPacket, SpaError, open_packet, verify_packet}
use ghostbro.Seal.{x25519_public_from_private}

pub record SpaVerifier : Type 0 where
  pub clients : Dict KeyId AuthorizedClient
  pub highest_counters : Dict KeyId ℕ
  pub time_window_ms : ℕ
  pub counter_state_path : Option FilePath
  pub server_static_private : List ℕ
  pub server_static_pubkey : List ℕ

pub record SpaAccept : Type 0 where
  pub key_id : KeyId
  pub client_id : ℕ
  pub client_name : List ℕ
  pub noise_public_key : List ℕ
  pub mode : SpaMode
  pub counter : ℕ
  pub max_concurrent_sessions : Option ℕ

-- Why the counter file could not be written or read.
pub data StateError : Type 0 where
  serialize_failed create_dir_failed create_failed write_failed sync_failed rename_failed :
      StateError
  missing_state read_failed parse_failed : StateError
  invalid_key_id : List ℕ → StateError

pub data SpaVerifyError : Type 0 where
  parse : SpaError → SpaVerifyError
  unknown_key : List ℕ → SpaVerifyError
  unauthorized_tier : List ℕ → SpaVerifyError
  timestamp_outside_window : SpaVerifyError
  source_ip_mismatch : SpaVerifyError
  replayed_counter : SpaVerifyError
  persist : StateError → SpaVerifyError

-- `clients.into_iter().map(|c| (c.key_id, c)).collect()`: of two with one key id the later stays.
unfoldable pub collect_from :
    Dict KeyId AuthorizedClient → List AuthorizedClient → Dict KeyId AuthorizedClient
collect_from m [] = m
collect_from m (client ∷ rest) = collect_from (insert client.key_id client m) rest

unfoldable pub collect_clients : List AuthorizedClient → Dict KeyId AuthorizedClient
unfolding collect_from
collect_clients clients = collect_from [] clients

-- The ids that a dictionary holds, each once for the first entry that it has.
unfoldable pub keys : Dict KeyId AuthorizedClient → List KeyId
keys [] = []
keys ((k, v) ∷ m) = k ∷ keys m

-- The ids of the first list that the dictionary does not hold.
unfoldable pub missing_from : Dict KeyId AuthorizedClient → List KeyId → List KeyId
missing_from m [] = []
missing_from m (k ∷ ks) =
    let rest = missing_from m ks in if not (contains_key m k) then k ∷ rest else rest

-- `reload_clients`: the new verifier, and the key ids that are enrolled no more.
unfoldable pub reload_clients : SpaVerifier → List AuthorizedClient → SpaVerifier × List KeyId
reload_clients v clients =
    let old_key_ids = keys v.clients in
    let new_clients = collect_clients clients in
    (record v { clients = new_clients }, missing_from new_clients old_key_ids)

abbrev pub is_full : ClientTier → Bool
is_full full = true
is_full decoy = false

-- `u64::abs_diff`
abbrev pub abs_diff : ℕ → ℕ → ℕ
abs_diff a b = if ltb a b then b - a else a - b

abbrev pub unwrap_or_default : Option ℕ → ℕ
unwrap_or_default none = 0
unwrap_or_default (some n) = n

abbrev pub highest_counter : SpaVerifier → KeyId → ℕ
highest_counter v k = unwrap_or_default (lookup k v.highest_counters)

abbrev pub encode_counters : Dict KeyId ℕ → Dict (List ℕ) ℕ
encode_counters [] = []
encode_counters ((k, n) ∷ m) = (key_id_hex k, n) ∷ encode_counters m

-- The loop of `load_counter_state` over the parsed table; a hash map has no order of its own.
unfoldable pub decode_counters : Dict (List ℕ) ℕ → Result StateError (Dict KeyId ℕ)
decode_counters [] = ok []
decode_counters ((s, n) ∷ m) = do
  k ← ok_or (key_id_from_hex s) (invalid_key_id s)
  rest ← decode_counters m
  ok (insert k n rest)

-- `u64::saturating_mul`
abbrev pub saturating_mul : ℕ → ℕ → ℕ
saturating_mul a b = min (a * b) (2 ^ 64 - 1)

-- `from_counters`
unfoldable pub from_counters :
    Crypto → List AuthorizedClient → ℕ → Dict KeyId ℕ → Option FilePath → List ℕ → SpaVerifier
from_counters c clients window_seconds counters path private = record {
  clients = collect_clients clients;
  highest_counters = counters;
  time_window_ms = saturating_mul window_seconds 1000;
  counter_state_path = path;
  server_static_private = private;
  server_static_pubkey = x25519_public_from_private c private;
}

abbrev pub new_verifier : Crypto → List AuthorizedClient → ℕ → List ℕ → SpaVerifier
new_verifier c clients window_seconds private =
    from_counters c clients window_seconds [] none private

-- The first part of `verify`: open the seal, find the client, check its signature.
unfoldable pub identify :
    Crypto → SpaVerifier → List ℕ → Result SpaVerifyError (SpaPacket × AuthorizedClient)
identify c v payload = do
  packet ← map_err parse (open_packet c payload v.server_static_private)
  client ← ok_or (lookup packet.key_id v.clients) (unknown_key (key_id_hex packet.key_id))
  map_err parse (verify_packet c packet client.public_key v.server_static_pubkey)
  ok (packet, client)

-- The second part: the authorization decision on a packet with a valid signature.
unfoldable pub admit :
    SpaVerifier → Ipv4Addr → ℕ → SpaPacket → AuthorizedClient → Result SpaVerifyError (Unit {0})
admit v source now packet client = do
  fail_if (not (is_full client.tier)) (unauthorized_tier client.name)
  fail_if (ltb v.time_window_ms (abs_diff now packet.timestamp_ms)) timestamp_outside_window
  fail_if (not packet.use_packet_source && not (bytes_beq packet.allow_ip source))
      source_ip_mismatch
  fail_if (leb packet.counter (highest_counter v packet.key_id)) replayed_counter

-- All of `verify` before the first write: every refusal but that of the file.
unfoldable pub authorize :
    Crypto
    → SpaVerifier
    → List ℕ
    → Ipv4Addr
    → ℕ
    → Result SpaVerifyError (SpaPacket × AuthorizedClient)
authorize c v payload source now = do
  (packet, client) ← identify c v payload
  admit v source now packet client
  ok (packet, client)

unfoldable pub accepted : SpaPacket → AuthorizedClient → SpaAccept
accepted packet client = record {
  key_id = packet.key_id;
  client_id = client.client_id;
  client_name = client.name;
  noise_public_key = client.noise_public_key;
  mode = packet.mode;
  counter = packet.counter;
  max_concurrent_sessions = client.max_concurrent_sessions;
}

-- `self.highest_counters.insert(packet.key_id, packet.counter)`
unfoldable pub advance : SpaVerifier → SpaPacket → SpaVerifier
advance v packet = record v {
  highest_counters = insert packet.key_id packet.counter v.highest_counters;
}

-- What happens to a verifier: a payload arrives, or the list of clients is edited.
pub data Event : Type 0 where
  arrives : Faults → List ℕ → Ipv4Addr → ℕ → Event
  reloads : List AuthorizedClient → Event

abbrev pub accept_of : Result SpaVerifyError SpaAccept → List SpaAccept
accept_of (ok a) = a ∷ []
accept_of (err e) = []

-- The file operations of `save_counter_state`: write a temporary file, make it durable, rename it over
-- the live file. `temp` is `path.with_extension("tmp")`; `rename` replaces its target in one step.
unfoldable pub replace_file :
    Faults → FilePath → FilePath → List ℕ → Disk → Result StateError (Unit {0}) × Disk
replace_file f temp path contents disk =
    let empty_temp = insert temp [] disk in
    let full_temp = insert temp contents disk in
    if f.mkdir_fails
    then (err create_dir_failed, disk)
    else if f.create_fails
    then (err create_failed, disk)
    else if f.write_fails
    then (err write_failed, insert temp f.partial empty_temp)
    else if f.sync_fails
    then (err sync_failed, full_temp)
    else if f.rename_fails
    then (err rename_failed, full_temp)
    else (ok tt, insert path contents (remove temp full_temp))

module _ (toml : Toml) (temp_path : FilePath → FilePath) where
  -- `save_counter_state`
  unfoldable pub save_counter_state :
      Faults → FilePath → Dict KeyId ℕ → Disk → Result StateError (Unit {0}) × Disk
  save_counter_state f path counters disk =
      elim (toml.to_string_pretty (encode_counters counters)) [
        | none ↦ (err serialize_failed, disk)
        | some contents ↦ replace_file f (temp_path path) path contents disk
      ]

  -- `load_counter_state`
  unfoldable pub load_counter_state :
      Faults → FilePath → Bool → Disk → Result StateError (Dict KeyId ℕ)
  load_counter_state f path allow_missing disk =
      if f.read_fails then err read_failed else elim (lookup path disk) [
        | none ↦ if allow_missing then ok [] else err missing_state
        | some contents ↦ elim (toml.from_str contents) [
          | none ↦ err parse_failed
          | some table ↦ decode_counters table
        ]
      ]

  -- `persist_counters`
  unfoldable pub persist_counters :
      Faults → SpaVerifier → Disk → Result SpaVerifyError (Unit {0}) × Disk
  persist_counters f v disk = elim v.counter_state_path [
    | none ↦ (ok tt, disk)
    | some path ↦
        let (r, disk') = save_counter_state f path v.highest_counters disk in
        (map_err persist r, disk')
  ]

  module _ (c : Crypto) where
    -- `SpaVerifier::load`
    unfoldable pub load :
        Faults
        → List AuthorizedClient
        → ℕ
        → FilePath
        → List ℕ
        → Bool
        → Disk
        → Result StateError SpaVerifier
    load f clients window_seconds path private allow_missing disk = do
      counters ← load_counter_state f path allow_missing disk
      ok (from_counters c clients window_seconds counters (some path) private)

    -- `verify`: the counter is recorded in memory and on disk before the packet is accepted.
    unfoldable pub verify :
        Faults
        → SpaVerifier
        → Disk
        → List ℕ
        → Ipv4Addr
        → ℕ
        → Result SpaVerifyError SpaAccept × SpaVerifier × Disk
    verify f v disk payload source now = elim (authorize c v payload source now) [
      | err e ↦ (err e, v, disk)
      | ok (packet, client) ↦
          let v' = advance v packet in
          let (saved, disk') = persist_counters f v' disk in
          (saved >> ok (accepted packet client), v', disk')
    ]

    -- One event: what it accepts, and the verifier and the disk after it.
    unfoldable pub step : SpaVerifier → Disk → Event → List SpaAccept × SpaVerifier × Disk
    step v disk (arrives f payload source now) =
        let (r, v', disk') = verify f v disk payload source now in (accept_of r, v', disk')
    step v disk (reloads clients) = ([], (reload_clients v clients).0, disk)

    -- A history: all that it accepts, in order, and the verifier and the disk at its end.
    unfoldable pub run : SpaVerifier → Disk → List Event → List SpaAccept × SpaVerifier × Disk
    run v disk [] = ([], v, disk)
    run v disk (e ∷ es) =
        let (now, v', disk') = step v disk e in
        let (later, v'', disk'') = run v' disk' es in (now ++ later, v'', disk'')
