-- ===== src/Examples/Revoking.antt =====
-- ghostbro-server/src/ebpf.rs: a client is let in, revoked, and left to expire.
use ghostbro.Base.{
  Bool-cases, nat_beq, true, false, inl, inr, bytes_eq, replicate, ℕ, ◌<◌, ◌≡◌, ◌≢◌, ◌↔◌, ◌⊎◌, refl,
  ap, none, some, List, [], ◌∷◌, arith, nat_eq,
}
use ghostbro.Base.Dict.{contains_key, lookup, insert, remove}
use ghostbro.Base.Bytes.{to_be_bytes}
use ghostbro.Base.Result.{Result, ok, err}
use ghostbro.Gate.{AllowEntry, RateState, State, Helpers, is_allowed, emit_spa_event}
use ghostbro.Keys.{AuthorizedClient}
use ghostbro.Packet.{SpaPacket, key_id_for_public_key}
use ghostbro.Disk.{Disk}
use ghostbro.Verifier.{
  reload_clients, keys, missing_from, collect_clients, collect_from, from_counters, SpaVerifier,
  SpaVerifyError, SpaAccept, verify, accepted,
}
use ghostbro.Verifier.Authorize.{Authorized}
use ghostbro.Control.{
  AllowedSource, ControlError, remove_failed, Control, allow_source, handle_candidate, purge_key_id,
  reap_expired_sources, expiry_after, remove_sources, select, addresses, expired_sources,
}
use ghostbro.Control.Reload.{purge_all, handle_reload, reload-revokes}
use ghostbro.Control.Event.{handle_item}
use ghostbro.Control.Event.Handover.{handed_over}
use ghostbro.Control.Revoke.{IsMirrored}
use ghostbro.Control.Reap.{reap-expires, reap_fails}
use ghostbro.Control.Opening.{candidate_opens}
use ghostbro.Control.History.{MapEvent, candidate, history, revoked_after_history}
use ghostbro.Examples.Parts.{toy_crypto, toy_toml, toy_map, toy_map_laws, fit}
use ghostbro.Examples.Packets.{packet, wire}
use ghostbro.Examples.Verifying.{server, no_faults, temp, accept, accepts}
use ghostbro.Examples.Frames.{helpers, state, entry, source}

abbrev maps_of :
    List (ℕ × AllowEntry) → List (ℕ × AllowedSource) → Control (toy_map AllowEntry).Store
maps_of allow sources = record {
  verifier = server;
  disk = [];
  allow_map = allow;
  allowed_sources = sources;
}

abbrev late : Helpers
late = record helpers { now_allow = 920 }

abbrev allowed : AllowedSource
allowed = record { entry = entry; noise_public_key = []; max_concurrent_sessions = none }

abbrev open_gate : Control (toy_map AllowEntry).Store
open_gate = maps_of ((source, entry) ∷ []) ((source, allowed) ∷ [])

mirrored : IsMirrored (toy_map AllowEntry) open_gate
unfolding lookup
mirrored ip e h = (allowed, ground (arith, h), ground (arith, h))

reap-expires_example :
    ((toy_map AllowEntry).get
        (reap_expired_sources (toy_map AllowEntry) 950 open_gate).1.allow_map
        source
      ≡ some entry)
    ↔ (((toy_map AllowEntry).get open_gate.allow_map source ≡ some entry) × (950 < entry.expiry_ns))
unfolding reap_expired_sources remove_sources select addresses expired_sources lookup
reap-expires_example =
    reap-expires (toy_map AllowEntry) (toy_map_laws AllowEntry) 950 open_gate source entry mirrored
      refl

reap_fails_example :
    let s' = record open_gate {
      allow_map = (is_allowed (toy_map AllowEntry) (toy_map RateState) late source state).1.allow;
    } in
    (x : ℕ) × ((reap_expired_sources (toy_map AllowEntry) 950 s').0 ≡ err (remove_failed x))
unfolding lookup
reap_fails_example =
    reap_fails (toy_map AllowEntry) (toy_map_laws AllowEntry) (toy_map RateState) late state
      open_gate 950 source allowed refl refl (omega arith) (omega arith)

-- The client of the other examples, let in for 30 seconds.
abbrev pub empty_gate : Control (toy_map AllowEntry).Store
empty_gate = maps_of [] []

abbrev pub new_entry : AllowEntry
new_entry = record { expiry_ns = expiry_after 500 30; key_id = packet.key_id; client_id = 1 }

address : to_be_bytes 4 source ≡ 10 ∷ 0 ∷ 0 ∷ 1 ∷ []
unfolding to_be_bytes
address = refl

abbrev out : Result SpaVerifyError SpaAccept × SpaVerifier × Disk
out = verify toy_toml temp toy_crypto no_faults server [] wire (to_be_bytes 4 source) 3000

accepted_there : out.0 ≡ ok accept
accepted_there = rw address accepts

abbrev opened : Result ControlError (Unit {0}) × Control (toy_map AllowEntry).Store
opened =
    handle_candidate (toy_map AllowEntry) toy_toml temp toy_crypto no_faults 3000 500 30 wire source
      empty_gate

let_in :
    opened
    ≡ allow_source
        (toy_map AllowEntry)
        500
        source
        accept
        30
        (record empty_gate { verifier = out.1; disk = out.2 })
unfolding handle_candidate
let_in = rw (accepted_there, handle_candidate)

entered : (toy_map AllowEntry).get opened.1.allow_map source ≡ some new_entry
unfolding allow_source lookup insert remove accepted
entered = ap (λ x. (toy_map AllowEntry).get x.1.allow_map source) let_in

candidate_opens_example :
    ((toy_map AllowEntry).get empty_gate.allow_map source ≡ some new_entry)
    ⊎ ((source ≡ source)
        × (p : SpaPacket) × (client : AuthorizedClient) × Authorized toy_crypto empty_gate.verifier
            wire
            (to_be_bytes 4 source)
            3000
            p
            client
        × (new_entry.key_id ≡ p.key_id)
        × (new_entry.client_id ≡ client.client_id)
        × (new_entry.expiry_ns ≡ expiry_after 500 30))
candidate_opens_example =
    candidate_opens (toy_map AllowEntry) (toy_map_laws AllowEntry) toy_toml temp toy_crypto
      no_faults 3000 500 30 wire source empty_gate source new_entry entered

abbrev let_in_once : List (MapEvent (State (toy_map AllowEntry) (toy_map RateState)))
let_in_once = candidate no_faults 3000 500 30 wire source ∷ []

abbrev full_gate : Control (toy_map AllowEntry).Store
full_gate =
    history (toy_map AllowEntry) (toy_map RateState) toy_toml temp toy_crypto empty_gate let_in_once

pub purges : (purge_key_id (toy_map AllowEntry) packet.key_id opened.1).0 ≡ ok tt
unfolding purge_key_id remove_sources select addresses allow_source lookup insert remove accepted
    key_id_for_public_key fit
purges = ap (λ x. (purge_key_id (toy_map AllowEntry) packet.key_id x.1).0) let_in

revoked_after_history_example :
    ((toy_map AllowEntry).get
        (purge_key_id (toy_map AllowEntry) packet.key_id full_gate).1.allow_map
        source
      ≡ some new_entry)
    ↔ (((toy_map AllowEntry).get full_gate.allow_map source ≡ some new_entry)
        × (new_entry.key_id ≢ packet.key_id))
unfolding lookup
revoked_after_history_example =
    revoked_after_history (toy_map AllowEntry) (toy_map RateState) toy_toml temp toy_crypto
      (toy_map_laws AllowEntry) empty_gate let_in_once packet.key_id source new_entry (λ j. refl)
      purges

handed_over_example :
    (event' : List ℕ) × (emit_spa_event helpers 42 143 source 4660 [] ≡ event' ∷ [])
    × (handle_item
          (toy_map AllowEntry)
          toy_toml
          temp
          toy_crypto
          no_faults
          3000
          500
          30
          event'
          empty_gate
        ≡ handle_candidate
            (toy_map AllowEntry)
            toy_toml
            temp
            toy_crypto
            no_faults
            3000
            500
            30
            (replicate 143 0)
            source
            empty_gate)
handed_over_example =
    handed_over helpers source 4660 143 42 (replicate 184 0) (replicate 143 0) [] (omega arith)
      (omega arith) (omega arith) (omega arith) refl refl refl refl (toy_map AllowEntry) toy_toml
      temp toy_crypto no_faults 3000 500 30 empty_gate

-- Two sources, the second with the key of the client that the next file lacks.
abbrev own_entry : AllowEntry
own_entry = record { expiry_ns = 900; key_id = packet.key_id; client_id = 1 }

abbrev own : AllowedSource
own = record { entry = own_entry; noise_public_key = []; max_concurrent_sessions = none }

abbrev shared_gate : Control (toy_map AllowEntry).Store
shared_gate = maps_of ((source, entry) ∷ (5, own_entry) ∷ []) ((source, allowed) ∷ (5, own) ∷ [])

shared_gate-IsMirrored : IsMirrored (toy_map AllowEntry) shared_gate
unfolding lookup
shared_gate-IsMirrored ip e h = elim (Bool-cases (nat_beq source ip)) [
  | inl first ↦ (allowed, ground (arith, first), ground (arith, h, first))
  | inr other ↦ (own, ground (arith, h, other), ground (arith, h, other))
]

reloaded : (handle_reload (toy_map AllowEntry) (ok []) shared_gate).0 ≡ ok tt
unfolding handle_reload reload_clients purge_all purge_key_id remove_sources select addresses lookup
    remove insert keys missing_from contains_key collect_clients collect_from from_counters
    key_id_for_public_key fit
reloaded = refl

survives :
    (toy_map AllowEntry).get
      (handle_reload (toy_map AllowEntry) (ok []) shared_gate).1.allow_map
      source
    ≡ some entry
unfolding handle_reload reload_clients purge_all purge_key_id remove_sources select addresses lookup
    remove insert keys missing_from contains_key collect_clients collect_from from_counters
    key_id_for_public_key fit
survives = refl

enrolled : contains_key server.clients packet.key_id ≡ true
unfolding lookup insert remove contains_key collect_clients collect_from from_counters
    key_id_for_public_key fit
enrolled = refl

removed : contains_key (collect_clients []) packet.key_id ≡ false
unfolding lookup contains_key collect_clients collect_from
removed = refl

reload-revokes_example :
    ((toy_map AllowEntry).get shared_gate.allow_map source ≡ some entry)
    × (entry.key_id ≢ packet.key_id)
reload-revokes_example =
    reload-revokes (toy_map AllowEntry) (toy_map_laws AllowEntry) [] shared_gate source entry
      packet.key_id shared_gate-IsMirrored reloaded survives enrolled removed
