-- ===== src/Examples/Connecting.antt =====
-- ghostbro-server/src/ebpf.rs, ghostbro-server/src/noise.rs: a connection without an entry, and then a client
-- that is let in and revoked.
use ghostbro.Base.{◌≡◌, ◌≢◌, ◌↔◌, refl, some, List, [], ◌∷◌, arith, nat_eq}
use ghostbro.Base.Dict.{lookup}
use ghostbro.Gate.{AllowEntry, RateState, State}
use ghostbro.Control.{Control, purge_key_id, expiry_after}
use ghostbro.Control.History.{candidate}
use ghostbro.Control.Connections.{
  ServerEvent, on_maps, connects, full_history, revoked_after_connections,
}
use ghostbro.Noise.Handler.{ipv4, find_source}
use ghostbro.Examples.Parts.{toy_crypto, toy_toml, toy_map, toy_map_laws}
use ghostbro.Examples.Packets.{packet, wire}
use ghostbro.Examples.Verifying.{no_faults, temp}
use ghostbro.Examples.Frames.{source}
use ghostbro.Examples.Revoking.{empty_gate, new_entry, purges}

abbrev knock_and_enter : List (ServerEvent (State (toy_map AllowEntry) (toy_map RateState)))
knock_and_enter = connects (ipv4 5) 400 ∷ on_maps (candidate no_faults 3000 500 30 wire source) ∷ []

abbrev entered_gate : Control (toy_map AllowEntry).Store
entered_gate =
    full_history (toy_map AllowEntry) (toy_map RateState) toy_toml temp toy_crypto empty_gate
      knock_and_enter

revoked_after_connections_example :
    ((toy_map AllowEntry).get
        (purge_key_id (toy_map AllowEntry) packet.key_id entered_gate).1.allow_map
        source
      ≡ some new_entry)
    ↔ (((toy_map AllowEntry).get entered_gate.allow_map source ≡ some new_entry)
        × (new_entry.key_id ≢ packet.key_id))
unfolding lookup find_source expiry_after
revoked_after_connections_example =
    revoked_after_connections (toy_map AllowEntry) (toy_map RateState) toy_toml temp toy_crypto
      (toy_map_laws AllowEntry) 400 empty_gate knock_and_enter packet.key_id source new_entry
      (λ j. refl) (omega arith, tt) (omega arith) purges
