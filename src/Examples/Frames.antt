-- ===== src/Examples/Frames.antt =====
-- ghostbro-ebpf/src/main.rs: a TCP and a UDP packet at the gate, and a burst of them.
use ghostbro.Base.{
  ℕ, ◌+◌, ◌*◌, ◌≤◌, ◌<◌, ◌≡◌, ◌↔◌, ◌⊎◌, false, refl, none, some, List, [], ◌∷◌, ◌++◌, arith, length,
  replicate, get_or, true, nat_beq,
}
use ghostbro.Base.Bits.{all_below, eq_below}
use ghostbro.Base.Dict.{lookup}
use ghostbro.Gate.{
  Frame, Helpers, AllowEntry, RateState, State, xdp_pass, xdp_drop, ghostbro_xdp, has_bytes,
  read_u8, read_be_u16, read_be_u32, load_config, global_limit, try_ghostbro_xdp, dispatch,
  handle_udp, offer, is_spa_length, rate_limit_allows, charge, global_rate_limit_allows,
  emit_spa_event,
}
use ghostbro.Gate.Memory.{ghostbro_xdp-Agree}
use ghostbro.Gate.Verdict.{IsIpv4, HasEntry, tcp_gate, udp_silent}
use ghostbro.Gate.Budget.{run, burst_bounded}
use ghostbro.Examples.Parts.{toy_map}

-- An Ethernet frame with an IPv4 packet from 10.0.0.1: protocol, ports and length, what follows.
abbrev packet_bytes : ℕ → ℕ → ℕ → ℕ → List ℕ
packet_bytes proto high low len =
    replicate 12 0
    ++ 8
      ∷ 0
      ∷ 0x45
      ∷ (replicate 8 0
          ++ proto
            ∷ 0
            ∷ 0
            ∷ 10
            ∷ 0
            ∷ 0
            ∷ 1
            ∷ (replicate 6 0 ++ high ∷ low ∷ 0 ∷ len ∷ replicate 200 0))

abbrev frame : ℕ → ℕ → ℕ → ℕ → Frame
frame proto high low len = record {
  start = 0;
  end = 238;
  byte = λ a. get_or (packet_bytes proto high low len) a 0;
}

abbrev tcp : Frame
tcp = frame 6 0x20 0xfb 0

abbrev udp : Frame
udp = frame 17 0 53 151

-- The same packet with other bytes behind its end.
abbrev tcp_elsewhere : Frame
tcp_elsewhere = record {
  start = 0;
  end = 238;
  byte = λ a. get_or (packet_bytes 6 0x20 0xfb 0 ++ 7 ∷ 7 ∷ []) a 0;
}

abbrev pub source : ℕ
source = 0x0a000001

abbrev pub helpers : Helpers
helpers = record {
  now_allow = 500;
  now_rate = 500;
  now_global = 500;
  reserve = some (replicate 184 0);
  load_bytes = λ at n. some (replicate n 0);
}

abbrev pub entry : AllowEntry
entry = record { expiry_ns = 900; key_id = replicate 8 1; client_id = 1 }

abbrev pub state : State (toy_map AllowEntry) (toy_map RateState)
state = record {
  config = none;
  allow = (source, entry) ∷ [];
  rate = [];
  global = some (record { tokens = 0; last_ns = 0 });
  ring = [];
}

tcp-IsIpv4 : IsIpv4 tcp 6 20 source
unfolding read_be_u16 has_bytes read_u8 read_be_u32
tcp-IsIpv4 = record {
  ethertype = refl;
  header = refl;
  vihl = 0x45;
  version_length = refl;
  header_length = refl;
  long = omega arith;
  short = omega arith;
  protocol = refl;
  source = refl;
}

udp-IsIpv4 : IsIpv4 udp 17 20 source
unfolding read_be_u16 has_bytes read_u8 read_be_u32
udp-IsIpv4 = record {
  ethertype = refl;
  header = refl;
  vihl = 0x45;
  version_length = refl;
  header_length = refl;
  long = omega arith;
  short = omega arith;
  protocol = refl;
  source = refl;
}

tcp_gate_example :
    ((ghostbro_xdp (toy_map AllowEntry) (toy_map RateState) helpers tcp state).0 ≡ xdp_pass) ↔ (
      HasEntry (toy_map AllowEntry) (toy_map RateState) helpers state source
      ⊎ (has_bytes tcp 34 20 ≡ false))
unfolding has_bytes read_be_u16 read_u8 load_config
tcp_gate_example =
    tcp_gate (toy_map AllowEntry) (toy_map RateState) helpers tcp 20 source state tcp-IsIpv4 refl

udp_silent_example :
    ((ghostbro_xdp (toy_map AllowEntry) (toy_map RateState) helpers udp state).0 ≡ xdp_drop)
    ↔ (has_bytes udp 34 8 ≡ true)
unfolding has_bytes read_be_u16 read_u8 load_config
udp_silent_example =
    udp_silent (toy_map AllowEntry) (toy_map RateState) helpers udp 20 source state (omega arith)
      udp-IsIpv4 (λ e. absurd (omega (arith, e))) refl

bytes_table : all_below 238 (λ a. nat_beq (tcp.byte a) (tcp_elsewhere.byte a)) ≡ true
unfolding all_below
bytes_table = refl

same_bytes : (a : ℕ) → 0 ≤ a → a < 238 → tcp.byte a ≡ tcp_elsewhere.byte a
same_bytes a h0 h1 = eq_below 238 tcp.byte tcp_elsewhere.byte bytes_table a h1

ghostbro_xdp-Agree_example :
    ghostbro_xdp (toy_map AllowEntry) (toy_map RateState) helpers tcp state
    ≡ ghostbro_xdp (toy_map AllowEntry) (toy_map RateState) helpers tcp_elsewhere state
ghostbro_xdp-Agree_example =
    ghostbro_xdp-Agree tcp tcp_elsewhere
      (record { same_start = refl; same_end = refl; same_bytes = same_bytes }) (toy_map AllowEntry)
      (toy_map RateState) helpers state

burst_bounded_example :
    (length
        (run
          (toy_map AllowEntry)
          (toy_map RateState)
          ((helpers, udp) ∷ (helpers, udp) ∷ [])
          (run (toy_map AllowEntry) (toy_map RateState) [] state)).ring
      ≤ length (run (toy_map AllowEntry) (toy_map RateState) [] state).ring
        + 2
          * global_limit
              (load_config (toy_map AllowEntry) (toy_map RateState) state).rate_limit_per_minute)
    × (2
          * global_limit
              (load_config (toy_map AllowEntry) (toy_map RateState) state).rate_limit_per_minute
        ≤ 2_000_000)
burst_bounded_example =
    burst_bounded (toy_map AllowEntry) (toy_map RateState) 400 []
      ((helpers, udp) ∷ (helpers, udp) ∷ []) state refl (omega arith) (omega arith)

-- The datagram's event is written.
one_event :
    length (run (toy_map AllowEntry) (toy_map RateState) ((helpers, udp) ∷ []) state).ring ≡ 1
unfolding run ghostbro_xdp try_ghostbro_xdp read_be_u16 read_u8 has_bytes read_be_u32 dispatch
    load_config handle_udp offer is_spa_length rate_limit_allows charge lookup
    global_rate_limit_allows global_limit emit_spa_event
one_event = refl
