-- ===== src/Control/Event.antt =====
-- ghostbro-server/src/ebpf.rs, ghostbro-bpf-common/src/lib.rs: the ring's events, as user space reads
-- the bytes that the XDP program wrote. Both machines are little-endian.
pub mod Handover
use ghostbro.Base.{
  ℕ, ◌+◌, ◌*◌, ◌^◌, Option, none, some, not, List, if◌then◌else◌, ltb, nat_beq, length, get_or,
  take, drop,
}
use ghostbro.Base.Result.{Result, ok}
use ghostbro.Crypto.{Crypto}
use ghostbro.Disk.{FilePath, Faults, Toml}
use ghostbro.Gate.{AllowEntry}
use ghostbro.LruMap.{LruMap}
use ghostbro.Control.{Control, ControlError, handle_candidate}

pub record SpaEvent : Type 0 where
  pub src_ip : ℕ
  pub src_port : ℕ
  pub payload_len : ℕ
  pub payload : List ℕ

-- `mem::size_of::<SpaEvent>()`
abbrev pub event_size : ℕ
event_size = 184

abbrev pub u16_at : List ℕ → ℕ → ℕ
u16_at bytes i = get_or bytes i 0 + 256 * get_or bytes (i + 1) 0

abbrev pub u32_at : List ℕ → ℕ → ℕ
u32_at bytes i = u16_at bytes i + 2 ^ 16 * u16_at bytes (i + 2)

unfoldable pub parse_spa_event : List ℕ → Option SpaEvent
parse_spa_event bytes =
    if not (nat_beq (length bytes) event_size)
    then none
    else some (record {
      src_ip = u32_at bytes 0;
      src_port = u16_at bytes 4;
      payload_len = u16_at bytes 6;
      payload = drop 8 bytes;
    })

module _ (am : LruMap AllowEntry) where
  -- One item of the ring in `run_spa`: an event that does not fit is passed over.
  unfoldable pub handle_item :
      Toml
      → (FilePath → FilePath)
      → Crypto
      → Faults
      → ℕ
      → ℕ
      → ℕ
      → List ℕ
      → Control am.Store
      → Result ControlError (Unit {0}) × Control am.Store
  handle_item toml temp c f now_ms now_ns allow_ttl_seconds item s = elim (parse_spa_event item) [
    | none ↦ (ok tt, s)
    | some event ↦
        if ltb 176 event.payload_len
        then (ok tt, s)
        else handle_candidate am toml temp c f now_ms now_ns allow_ttl_seconds
            (take event.payload_len event.payload) event.src_ip s
  ]
