-- ===== src/Examples/Verifying.antt =====
-- ghostbro-server/src/spa.rs: a server with one client and a counter file, and what it does with the
-- client's packet.
use ghostbro.Base.{
  ℕ, ◌^◌, ◌≡◌, ◌≢◌, ◌↔◌, ◌⊎◌, refl, none, some, List, [], ◌∷◌, ◌++◌, arith, false, bytes_eq,
}
use ghostbro.Base.Dict.{Dict, lookup, insert, remove}
use ghostbro.Base.Bytes.{to_be_bytes, from_be_bytes, be_value}
use ghostbro.Base.Result.{ok, err}
use ghostbro.Disk.{Disk, FilePath, Faults}
use ghostbro.Seal.{derive_key_nonce, open_seal, seal_with_ephemeral}
use ghostbro.Keys.{
  AuthorizedClient, full, key_id_hex, key_id_from_hex, hex_digit, digit_value, byte_from_hex,
  bytes_from_hex,
}
use ghostbro.Packet.{
  SpaPacket, udp, packet_source, KeyId, build_with_padding, open_packet, verify_packet, parse_inner,
  parse_fields, mode_from_flags, read_array, key_id_for_public_key,
}
use ghostbro.Packet.RoundTrip.{described}
use ghostbro.Verifier.{
  SpaVerifier, SpaAccept, StateError, arrives, reloads, from_counters, collect_clients,
  collect_from, identify, admit, authorize, accepted, advance, verify, load, run, persist_counters,
  save_counter_state, load_counter_state, decode_counters, encode_counters, highest_counter,
  replace_file,
}
use ghostbro.Verifier.Authorize.{Authorized, authorize_iff}
use ghostbro.Verifier.Counters.{Rising, run-Rising, no_replay}
use ghostbro.Verifier.Table.{IsKeyId, IsTable, decode-encode}
use ghostbro.Verifier.Restart.{save_atomic, restart_keeps, no_replay_after_restart}
use ghostbro.Verifier.Exhausted.{large_counter_locks_out}
use ghostbro.Examples.Parts.{
  toy_crypto, toy_crypto_laws, toy_toml, toy_toml_laws, fit, print_table, print_entry, read_table,
}
use ghostbro.Examples.Packets.{server_private, client_key, ephemeral, packet, wire, bytes_or_none}

abbrev pub client : AuthorizedClient
client = record {
  name = 97 ∷ [];
  public_key = client_key;
  noise_public_key = 4 ∷ [];
  key_id = key_id_for_public_key toy_crypto client_key;
  client_id = 1;
  tier = full;
  max_concurrent_sessions = none;
}

abbrev pub path : FilePath
path = 47 ∷ []

abbrev pub temp : FilePath → FilePath
temp p = p ++ 46 ∷ []

abbrev pub server : SpaVerifier
server = from_counters toy_crypto (client ∷ []) 60 [] (some path) server_private

abbrev pub no_faults : Faults
no_faults = record {
  read_fails = false;
  mkdir_fails = false;
  create_fails = false;
  write_fails = false;
  sync_fails = false;
  rename_fails = false;
  partial = [];
}

abbrev source : List ℕ
source = 10 ∷ 0 ∷ 0 ∷ 1 ∷ []

-- The packet is let through, two seconds late.
let_through : authorize toy_crypto server wire source 3000 ≡ ok (packet, client)
unfolding authorize identify admit open_packet open_seal parse_inner parse_fields mode_from_flags
    read_array key_id_for_public_key derive_key_nonce build_with_padding seal_with_ephemeral fit
    to_be_bytes from_be_bytes be_value from_counters collect_clients collect_from lookup insert
    remove verify_packet
let_through = refl

authorize_iff_example :
    (authorize toy_crypto server wire source 3000 ≡ ok (packet, client))
    ↔ Authorized toy_crypto server wire source 3000 packet client
authorize_iff_example = authorize_iff toy_crypto server wire source 3000 packet client

saves : (persist_counters toy_toml temp no_faults (advance server packet) []).0 ≡ ok tt
unfolding persist_counters save_counter_state replace_file advance from_counters insert remove
    print_table print_entry key_id_hex hex_digit fit key_id_for_public_key lookup
saves = refl

abbrev pub accept : SpaAccept
accept = accepted packet client

pub accepts : (verify toy_toml temp toy_crypto no_faults server [] wire source 3000).0 ≡ ok accept
unfolding verify
accepts = rw (let_through, verify, saves)

recorded :
    (verify toy_toml temp toy_crypto no_faults server [] wire source 3000).1 ≡ advance server packet
unfolding verify
recorded = rw (let_through, verify)

no_replay_example :
    let after = verify toy_toml temp toy_crypto no_faults server [] wire source 3000 in
    let later = run toy_toml temp toy_crypto after.1 after.2 (reloads (client ∷ []) ∷ []) in
    ¬ ((verify toy_toml temp toy_crypto no_faults later.1 later.2 wire source 3500).0 ≡ ok accept)
no_replay_example =
    no_replay toy_toml temp toy_crypto no_faults no_faults server [] wire source source 3000 3500
      accept accept (reloads (client ∷ []) ∷ []) accepts

run-Rising_example :
    Rising
      (run toy_toml temp toy_crypto server []
        (arrives no_faults wire source 3000 ∷ arrives no_faults wire source 3001 ∷ [])).0
run-Rising_example =
    run-Rising toy_toml temp toy_crypto server []
      (arrives no_faults wire source 3000 ∷ arrives no_faults wire source 3001 ∷ [])

apart : temp path ≢ path
apart e = absurd (cc e)

id : IsKeyId packet.key_id
unfolding key_id_for_public_key fit
id = (refl, omega arith)

table : IsTable server.highest_counters
unfolding from_counters
table = tt

restart_keeps_example :
    let out = verify toy_toml temp toy_crypto no_faults server [] wire source 3000 in
    (w : SpaVerifier) × (load toy_toml temp toy_crypto no_faults
        (client ∷ [])
        60
        path
        server.server_static_private
        false
        out.2
      ≡ ok w)
    × (w.server_static_private ≡ server.server_static_private)
    × ((k : KeyId) → IsKeyId k → highest_counter w k ≡ highest_counter out.1 k)
unfolding from_counters
restart_keeps_example =
    restart_keeps toy_toml temp toy_crypto toy_crypto_laws toy_toml_laws no_faults no_faults server
      [] wire source 3000 accept path (client ∷ []) 60 false refl apart table refl accepts

abbrev restarted : SpaVerifier
restarted =
    from_counters toy_crypto (client ∷ []) 60 ((packet.key_id, 7) ∷ []) (some path) server_private

abbrev pub file : Disk
file = (path, print_entry (key_id_hex packet.key_id) 7 []) ∷ []

saved_file : (persist_counters toy_toml temp no_faults (advance server packet) []).1 ≡ file
unfolding persist_counters save_counter_state replace_file advance from_counters insert remove
    print_table
saved_file = refl

written : (verify toy_toml temp toy_crypto no_faults server [] wire source 3000).2 ≡ file
unfolding verify
written = rw (let_through, verify, saved_file)

loads_file :
    load toy_toml temp toy_crypto no_faults (client ∷ []) 60 path server_private false file
    ≡ ok restarted
unfolding load load_counter_state from_counters lookup read_table print_entry decode_counters insert
    remove key_id_hex key_id_from_hex hex_digit digit_value byte_from_hex bytes_from_hex fit
    key_id_for_public_key
loads_file = refl

no_replay_after_restart_example :
    let later = run toy_toml temp toy_crypto restarted [] [] in
    ¬ ((verify toy_toml temp toy_crypto no_faults later.1 later.2 wire source 3500).0 ≡ ok accept)
unfolding from_counters
no_replay_after_restart_example =
    no_replay_after_restart toy_toml temp toy_crypto toy_crypto_laws toy_toml_laws no_faults
      no_faults no_faults server [] [] wire source source 3000 3500 accept accept path (client ∷ [])
      60 false restarted [] refl apart table refl accepts (rw written loads_file)

save_atomic_example :
    let saved = save_counter_state toy_toml temp no_faults path ((packet.key_id, 7) ∷ []) [] in
    (((e : StateError) × (saved.0 ≡ err e) × (lookup path saved.1 ≡ lookup {V = List ℕ} path []))
      ⊎ ((text : List ℕ) × (toy_toml.to_string_pretty (encode_counters ((packet.key_id, 7) ∷ []))
            ≡ some text)
          × (saved.0 ≡ ok tt)
          × (lookup path saved.1 ≡ some text)))
    × ((q : FilePath) → q ≢ path → q ≢ temp path → lookup q saved.1 ≡ lookup {V = List ℕ} q [])
save_atomic_example = save_atomic toy_toml temp no_faults path ((packet.key_id, 7) ∷ []) [] apart

decode-encode_example :
    (r : Dict KeyId ℕ) × (decode_counters (encode_counters ((packet.key_id, 7) ∷ [])) ≡ ok r)
    × ((k : KeyId) → IsKeyId k → lookup k r ≡ lookup k ((packet.key_id, 7) ∷ []))
decode-encode_example =
    decode-encode ((packet.key_id, 7) ∷ []) (encode_counters ((packet.key_id, 7) ∷ [])) (id, tt)
      (λ s. refl)

-- The same client with a counter that TOML cannot hold.
abbrev large_packet : SpaPacket
large_packet =
    described toy_crypto toy_crypto_laws client_key udp 1000 (2 ^ 63) packet_source server_private
      ephemeral

abbrev large_wire : List ℕ
large_wire = bytes_or_none (
    build_with_padding toy_crypto client_key udp 1000 (2 ^ 63) packet_source []
      (toy_crypto.x25519_public server_private) ephemeral)

large_let_through : authorize toy_crypto server large_wire source 3000 ≡ ok (large_packet, client)
unfolding authorize identify admit open_packet open_seal parse_inner parse_fields mode_from_flags
    read_array key_id_for_public_key derive_key_nonce build_with_padding seal_with_ephemeral fit
    to_be_bytes from_be_bytes be_value from_counters collect_clients collect_from lookup insert
    remove verify_packet
large_let_through = refl

large_counter_locks_out_example :
    let out = verify toy_toml temp toy_crypto no_faults server [] large_wire source 3000 in
    let later = run toy_toml temp toy_crypto out.1 out.2 [] in
    ¬ ((verify toy_toml temp toy_crypto no_faults later.1 later.2 wire source 3001).0 ≡ ok accept)
unfolding from_counters
large_counter_locks_out_example =
    large_counter_locks_out toy_toml toy_toml_laws temp toy_crypto toy_crypto_laws no_faults
      no_faults server [] large_wire wire source source 3000 3001 large_packet client path [] accept
      refl table
      ((authorize_iff toy_crypto server large_wire source 3000 large_packet client).0
        large_let_through)
      (omega arith)
