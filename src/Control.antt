-- ===== src/Control.antt =====
-- ghostbro-server/src/ebpf.rs: user space's half of the gate. It verifies what the kernel hands over,
-- opens the kernel's map for an accepted source, and purges and reaps it, with a mirror of its own.
-- The clocks are arguments. An error that `?` passes on ends `run_spa`; the state is as it was left.
pub mod Loop
pub mod Mirror
pub mod Revoke
pub mod Reap
pub mod Opening
pub mod History
pub mod Connections
pub mod Event
pub mod Reload
use ghostbro.Base.{
  ℕ, ◌+◌, ◌*◌, ◌-◌, ◌^◌, min, Option, none, some, Bool, true, false, List, [], ◌∷◌, if◌then◌else◌,
  leb, bytes_beq, nat_eq,
}
use ghostbro.Base.Bytes.{to_be_bytes}
use ghostbro.Base.Dict.{Dict, lookup, insert, remove}
use ghostbro.Base.Result.{Result, ok, err, ◌>>=◌}
use ghostbro.Crypto.{Crypto}
use ghostbro.Disk.{Disk, FilePath, Faults, Toml}
use ghostbro.LruMap.{LruMap}
use ghostbro.Gate.{AllowEntry}
use ghostbro.Packet.{KeyId}
use ghostbro.Verifier.{SpaVerifier, SpaAccept, SpaVerifyError, verify}

pub record AllowedSource : Type 0 where
  pub entry : AllowEntry
  pub noise_public_key : List ℕ
  pub max_concurrent_sessions : Option ℕ

-- A system call on the kernel's map that failed, with the address.
pub data ControlError : Type 0 where
  write_failed remove_failed : ℕ → ControlError

abbrev pub Mirror : Type 0
Mirror = Dict ℕ AllowedSource

unfoldable pub addresses : Mirror → List ℕ
addresses [] = []
addresses ((src_ip, source) ∷ m) = src_ip ∷ addresses m

-- The test of `filter_map`, on what the mirror holds for an address.
abbrev pub satisfies : (AllowedSource → Bool) → Option AllowedSource → Bool
satisfies test none = false
satisfies test (some source) = test source

unfoldable pub select : (AllowedSource → Bool) → Mirror → List ℕ → List ℕ
select test m [] = []
select test m (src_ip ∷ rest) =
    let kept = select test m rest in
    if satisfies test (lookup src_ip m) then src_ip ∷ kept else kept

abbrev pub has_key : KeyId → AllowedSource → Bool
has_key key_id source = bytes_beq source.entry.key_id key_id

abbrev pub is_expired : ℕ → AllowedSource → Bool
is_expired now_ns source = leb source.entry.expiry_ns now_ns

unfoldable pub expired_sources : Mirror → ℕ → List ℕ
expired_sources sources now_ns = select (is_expired now_ns) sources (addresses sources)

pub record Control (A : Type 0) : Type 0 where
  pub verifier : SpaVerifier
  pub disk : Disk
  pub allow_map : A
  pub allowed_sources : Mirror

-- `now.saturating_add(ttl.saturating_mul(1_000_000_000))`
unfoldable pub expiry_after : ℕ → ℕ → ℕ
expiry_after now_ns allow_ttl_seconds =
    min (now_ns + min (allow_ttl_seconds * 1_000_000_000) (2 ^ 64 - 1)) (2 ^ 64 - 1)

module _ (am : LruMap AllowEntry) where
  unfoldable pub allow_source :
      ℕ → ℕ → SpaAccept → ℕ → Control am.Store → Result ControlError (Unit {0}) × Control am.Store
  allow_source now_ns src_ip accept allow_ttl_seconds s =
      let entry : AllowEntry = record {
        expiry_ns = expiry_after now_ns allow_ttl_seconds;
        key_id = accept.key_id;
        client_id = accept.client_id;
      } in
      let source : AllowedSource = record {
        entry = entry;
        noise_public_key = accept.noise_public_key;
        max_concurrent_sessions = accept.max_concurrent_sessions;
      } in
      elim (am.update s.allow_map src_ip entry) [
        | none ↦ (err (write_failed src_ip), s)
        | some written ↦ (
          ok tt,
          record s {
            allow_map = written;
            allowed_sources = insert src_ip source s.allowed_sources;
          },
        )
      ]

  -- The loop of `purge_key_id` and of `reap_expired_sources`.
  unfoldable pub remove_sources :
      List ℕ → Control am.Store → Result ControlError (Unit {0}) × Control am.Store
  remove_sources [] s = (ok tt, s)
  remove_sources (src_ip ∷ rest) s = elim (am.delete s.allow_map src_ip) [
    | none ↦ (err (remove_failed src_ip), s)
    | some left ↦
        remove_sources rest
          (record s { allow_map = left; allowed_sources = remove src_ip s.allowed_sources })
  ]

  unfoldable pub purge_key_id :
      KeyId → Control am.Store → Result ControlError (Unit {0}) × Control am.Store
  purge_key_id key_id s =
      remove_sources (select (has_key key_id) s.allowed_sources (addresses s.allowed_sources)) s

  unfoldable pub reap_expired_sources :
      ℕ → Control am.Store → Result ControlError (Unit {0}) × Control am.Store
  reap_expired_sources now_ns s = remove_sources (expired_sources s.allowed_sources now_ns) s

  -- One candidate of `run_spa`, from the ring or over HTTPS: verified, and its source admitted.
  unfoldable pub handle_candidate :
      Toml
      → (FilePath → FilePath)
      → Crypto
      → Faults
      → ℕ
      → ℕ
      → ℕ
      → List ℕ
      → ℕ
      → Control am.Store
      → Result ControlError (Unit {0}) × Control am.Store
  handle_candidate toml temp c f now_ms now_ns allow_ttl_seconds payload src_ip s =
      let (result, v, disk) =
        verify toml temp c f s.verifier s.disk payload (to_be_bytes 4 src_ip) now_ms in
      let s' = record s { verifier = v; disk = disk } in
      elim result [
        | err refused ↦ (ok tt, s')
        | ok accept ↦ allow_source now_ns src_ip accept allow_ttl_seconds s'
      ]
