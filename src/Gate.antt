-- ===== src/Gate.antt =====
-- ghostbro-ebpf/src/main.rs and ghostbro-bpf-common/src/lib.rs: the XDP packet gate. A frame is the
-- memory between two addresses; every read of it is checked. The clock, the ring's free space and
-- `bpf_xdp_load_bytes` are arguments. Rust's `Err(())` is `none`, and nothing is written before one.
pub mod Memory
pub mod Verdict
pub mod Spending
pub mod Budget
use ghostbro.Base.{
  ℕ, ◌+◌, ◌-◌, ◌*◌, ◌%◌, ◌/◌, ◌^◌, min, Option, none, some, Bool, true, false, not, ◌&&◌, ◌||◌,
  List, [], ◌∷◌, ◌++◌, if◌then◌else◌, ltb, leb, nat_beq, bit_and, bit_or, set, take, drop, length,
}
use ghostbro.Base.Maybe.{◌>>=◌, checked_add}
use ghostbro.LruMap.{LruMap}

pub record BpfConfig : Type 0 where
  pub spa_port : ℕ
  pub proxy_port : ℕ
  pub rate_limit_per_minute : ℕ
  pub spa_mode : ℕ

pub record AllowEntry : Type 0 where
  pub expiry_ns : ℕ
  pub key_id : List ℕ
  pub client_id : ℕ

pub record RateState : Type 0 where
  pub tokens : ℕ
  pub last_ns : ℕ

pub data Action : Type 0 where
  xdp_pass xdp_drop : Action

-- The frame, and what the helpers answer while it is handled.
pub record Frame : Type 0 where
  pub start : ℕ
  pub end : ℕ
  pub byte : ℕ → ℕ

pub record Helpers : Type 0 where
  pub now_allow : ℕ
  pub now_rate : ℕ
  pub now_global : ℕ
  -- The event's buffer, uninitialized; `none` where the ring is full.
  pub reserve : Option (List ℕ)
  pub load_bytes : ℕ → ℕ → Option (List ℕ)

abbrev pub spa_min_len : ℕ
spa_min_len = 143

abbrev pub spa_max_len : ℕ
spa_max_len = 176

abbrev pub default_rate_limit : ℕ
default_rate_limit = 5

abbrev pub rate_refill_ns : ℕ
rate_refill_ns = 60_000_000_000

abbrev pub default_config : BpfConfig
default_config = record {
  spa_port = 53;
  proxy_port = 8443;
  rate_limit_per_minute = default_rate_limit;
  spa_mode = 1;
}

unfoldable pub has_bytes : Frame → ℕ → ℕ → Bool
has_bytes f offset len = elim (checked_add f.start offset >>= λ start. checked_add start len) [
  | none ↦ leb (2 ^ 64 - 1) f.end
  | some end ↦ leb end f.end
]

unfoldable pub read_u8 : Frame → ℕ → Option ℕ
read_u8 f offset = do
  ptr ← checked_add f.start offset
  end ← checked_add ptr 1
  if ltb f.end end then none else some (f.byte ptr)

-- `(high << 8) | low` on 16 bits
unfoldable pub read_be_u16 : Frame → ℕ → Option ℕ
read_be_u16 f offset = do
  high ← read_u8 f offset
  next ← checked_add offset 1
  low ← read_u8 f next
  some (bit_or (high * 2 ^ 8 % 2 ^ 16) low)

-- `(b0 << 24) | (b1 << 16) | (b2 << 8) | b3` on 32 bits
unfoldable pub read_be_u32 : Frame → ℕ → Option ℕ
read_be_u32 f offset = do
  b0 ← read_u8 f offset
  o1 ← checked_add offset 1
  b1 ← read_u8 f o1
  o2 ← checked_add offset 2
  b2 ← read_u8 f o2
  o3 ← checked_add offset 3
  b3 ← read_u8 f o3
  some (
      bit_or (bit_or (bit_or (b0 * 2 ^ 24 % 2 ^ 32) (b1 * 2 ^ 16 % 2 ^ 32)) (b2 * 2 ^ 8 % 2 ^ 32))
        b3)

unfoldable pub is_spa_length : ℕ → Bool
is_spa_length payload_len = leb spa_min_len payload_len && leb payload_len spa_max_len

-- One token bucket: refilled to `limit` when `refill` says so, then charged one token if it has one.
unfoldable pub charge : Bool → ℕ → ℕ → RateState → Bool × RateState
charge refill limit now state =
    let s = if refill then record state { tokens = limit; last_ns = now } else state in
    if nat_beq s.tokens 0 then (false, s) else (true, record s { tokens = s.tokens - 1 })

abbrev pub per_ip_limit : ℕ → ℕ
per_ip_limit configured = if nat_beq configured 0 then default_rate_limit else configured

-- `per_ip_limit.saturating_mul(256).min(1_000_000)` on 32 bits
unfoldable pub global_limit : ℕ → ℕ
global_limit configured = min (min (per_ip_limit configured * 256) (2 ^ 32 - 1)) 1_000_000

-- `write_u8`, `write_u16_ne` and `write_u32_ne`: the target is little-endian.
abbrev pub write_u16_ne : List ℕ → ℕ → ℕ → List ℕ
write_u16_ne event offset value =
    set (set event offset (value % 256)) (offset + 1) (value / 256 % 256)

abbrev pub write_u32_ne : List ℕ → ℕ → ℕ → List ℕ
write_u32_ne event offset value =
    set
      (set (set (set event offset (value % 256)) (offset + 1) (value / 256 % 256)) (offset + 2)
        (value / 2 ^ 16 % 256))
      (offset + 3) (value / 2 ^ 24 % 256)

-- What the kernel helper copies in: `bytes` over the event from `offset` on.
abbrev pub overwrite : List ℕ → ℕ → List ℕ → List ℕ
overwrite event offset bytes = take offset event ++ (bytes ++ drop (offset + length bytes) event)

-- `emit_spa_event`: the events of the ring after it.
unfoldable pub emit_spa_event : Helpers → ℕ → ℕ → ℕ → ℕ → List (List ℕ) → List (List ℕ)
emit_spa_event h payload_offset payload_len src_ip src_port ring =
    let copy_len = if ltb spa_max_len payload_len then spa_max_len else payload_len in
    if ltb copy_len spa_min_len then ring else elim h.reserve [
      | none ↦ ring
      | some event ↦
          let header =
            write_u16_ne (write_u16_ne (write_u32_ne event 0 src_ip) 4 src_port) 6
              (copy_len % 2 ^ 16) in
          elim (h.load_bytes (payload_offset % 2 ^ 32) copy_len) [
            | none ↦ ring
            | some payload ↦ ring ++ overwrite header 8 payload ∷ []
          ]
    ]

-- The maps of the program; `global` is the one slot of an array.
pub record Maps (A R : Type 0) : Type 0 where
  pub config : Option BpfConfig
  pub allow : A
  pub rate : R
  pub global : Option RateState
  pub ring : List (List ℕ)

abbrev pub unwrap_or {ℓ} : {A : Type ℓ} → Option A → A → A
unwrap_or none d = d
unwrap_or (some a) d = a

module _ (am : LruMap AllowEntry) (rm : LruMap RateState) where
  abbrev pub State : Type 0
  State = Maps am.Store rm.Store

  unfoldable pub load_config : State → BpfConfig
  load_config s = unwrap_or s.config default_config

  unfoldable pub is_allowed : Helpers → ℕ → State → Bool × State
  is_allowed h src_ip s = elim (am.get s.allow src_ip) [
    | none ↦ (false, s)
    | some entry ↦
        if leb entry.expiry_ns h.now_allow
        then (false, record s { allow = am.drop_key s.allow src_ip })
        else (true, s)
  ]

  unfoldable pub rate_limit_allows : Helpers → ℕ → ℕ → State → Bool × State
  rate_limit_allows h src_ip configured s =
      let limit = per_ip_limit configured in
      let now = h.now_rate in
      let state = unwrap_or (rm.get s.rate src_ip) (record { tokens = limit; last_ns = now }) in
      let (allowed, state') = charge (leb rate_refill_ns (now - state.last_ns)) limit now state in
      (allowed, record s { rate = rm.put s.rate src_ip state' })

  -- An array's slot is zero at first: `last_ns == 0` stands for a bucket that was never filled.
  unfoldable pub global_rate_limit_allows : Helpers → ℕ → State → Bool × State
  global_rate_limit_allows h configured s = elim s.global [
    | none ↦ (false, s)
    | some state ↦
        let now = h.now_global in
        let refill = nat_beq state.last_ns 0 || leb rate_refill_ns (now - state.last_ns) in
        let (allowed, state') = charge refill (global_limit configured) now state in
        (allowed, record s { global = some state' })
  ]

  -- `if is_allowed(src_ip) { XDP_PASS } else { XDP_DROP }`
  abbrev pub verdict : Bool × State → Action × State
  verdict (allowed, s) = (if allowed then xdp_pass else xdp_drop, s)

  unfoldable pub handle_tcp : Helpers → Frame → ℕ → ℕ → ℕ → State → Option (Action × State)
  handle_tcp h f transport_offset src_ip proxy_port s =
      if not (has_bytes f transport_offset 20) then some (xdp_pass, s) else do
        port_at ← checked_add transport_offset 2
        dst_port ← read_be_u16 f port_at
        if not (nat_beq dst_port proxy_port)
            then some (xdp_pass, s)
            else some (verdict (is_allowed h src_ip s))

  -- The candidate of a datagram that was addressed well: both budgets, then the ring.
  unfoldable pub offer : Helpers → ℕ → ℕ → ℕ → ℕ → ℕ → State → State
  offer h payload_offset payload_len src_ip src_port configured s =
      let (within, s1) = rate_limit_allows h src_ip configured s in
      let (admitted, s2) = global_rate_limit_allows h configured s1 in
      let ring = emit_spa_event h payload_offset payload_len src_ip src_port s2.ring in
      if not (is_spa_length payload_len)
      then s
      else if not within
      then s1
      else if not admitted
      then s2
      else record s2 { ring = ring }

  unfoldable pub handle_udp : Helpers → Frame → ℕ → ℕ → ℕ → ℕ → State → Option (Action × State)
  handle_udp h f transport_offset src_ip spa_port configured s =
      if not (has_bytes f transport_offset 8) then some (xdp_pass, s) else do
        port_at ← checked_add transport_offset 2
        dst_port ← read_be_u16 f port_at
        if not (nat_beq dst_port spa_port) then some (xdp_pass, s) else do
          src_port ← read_be_u16 f transport_offset
          len_at ← checked_add transport_offset 4
          udp_len ← read_be_u16 f len_at
          if ltb udp_len 8 then some (xdp_drop, s) else do
            payload_offset ← checked_add transport_offset 8
            if not (has_bytes f payload_offset (udp_len - 8))
                then some (xdp_drop, s)
                else some
                    (xdp_drop, offer h payload_offset (udp_len - 8) src_ip src_port configured s)

  -- `match proto`, for a packet from `src_ip` whose transport header is at the offset.
  unfoldable pub dispatch : Helpers → Frame → ℕ → ℕ → ℕ → State → Option (Action × State)
  dispatch h f proto transport_offset src_ip s =
      let config = load_config s in
      if nat_beq proto 6
      then handle_tcp h f transport_offset src_ip config.proxy_port s
      else if nat_beq proto 17 && not (nat_beq (bit_and config.spa_mode 1) 0)
      then handle_udp h f transport_offset src_ip config.spa_port config.rate_limit_per_minute s
      else some (xdp_pass, s)

  unfoldable pub try_ghostbro_xdp : Helpers → Frame → State → Option (Action × State)
  try_ghostbro_xdp h f s = do
    ethertype ← read_be_u16 f 12
    if not (nat_beq ethertype 0x0800)
        then some (xdp_pass, s)
        else if not (has_bytes f 14 20)
        then some (xdp_pass, s)
        else do
          vihl ← read_u8 f 14
          let ihl = bit_and vihl 0x0f * 4 % 2 ^ 64
          if ltb ihl 20 then some (xdp_pass, s) else do
            proto_at ← checked_add 14 9
            proto ← read_u8 f proto_at
            src_at ← checked_add 14 12
            src_ip ← read_be_u32 f src_at
            transport_offset ← checked_add 14 ihl
            dispatch h f proto transport_offset src_ip s

  unfoldable pub ghostbro_xdp : Helpers → Frame → State → Action × State
  ghostbro_xdp h f s = unwrap_or (try_ghostbro_xdp h f s) (xdp_pass, s)
