-- ===== src/Verifier/Authorize.antt =====
-- ghostbro-server/src/spa.rs: which payloads `verify` lets through to the recording of the counter.
use ghostbro.Base.{
  ℕ, ◌+◌, ◌≤◌, ◌<◌, ◌≡◌, refl, ◌↔◌, ◌⊎◌, inl, inr, List, Bool, true, false, not, ◌&&◌, some, ltb,
  leb, bytes_beq, bytes_beq_iff, bytes_eq, arith, lt→leb,
}
use ghostbro.Base.Dict.{lookup}
use ghostbro.Base.Result.{ok}
use ghostbro.Crypto.{Crypto}
use ghostbro.Keys.{AuthorizedClient, ClientTier, full, decoy}
use ghostbro.Packet.{Ipv4Addr, SpaPacket, open_packet, verify_packet}
use ghostbro.Verifier.{SpaVerifier, is_full, abs_diff, highest_counter, identify, admit, authorize}

-- The policy, said independently of the order of the checks.
pub record Authorized (c : Crypto) (v : SpaVerifier) (payload : List ℕ) (source : Ipv4Addr)
    (now : ℕ) (p : SpaPacket) (client : AuthorizedClient) : Type 0 where
  pub opened : open_packet c payload v.server_static_private ≡ ok p
  pub enrolled : lookup p.key_id v.clients ≡ some client
  pub signed : verify_packet c p client.public_key v.server_static_pubkey ≡ ok tt
  pub may_proxy : client.tier ≡ full
  pub not_late : now ≤ p.timestamp_ms + v.time_window_ms
  pub not_early : p.timestamp_ms ≤ now + v.time_window_ms
  pub bound_source : (p.use_packet_source ≡ true) ⊎ (p.allow_ip ≡ source)
  pub new_counter : highest_counter v p.key_id < p.counter

is_full-eq : (t : ClientTier) → not (is_full t) ≡ false → t ≡ full
is_full-eq full h = refl
is_full-eq decoy h = cc

in_drift :
    (now ts window : ℕ)
    → ltb window (abs_diff now ts) ≡ false
    → (now ≤ ts + window) × (ts ≤ now + window)
in_drift now ts window h = ground arith

drift_ok :
    (now ts window : ℕ)
    → now ≤ ts + window
    → ts ≤ now + window
    → ltb window (abs_diff now ts) ≡ false
drift_ok now ts window h k = ground arith

source_bound :
    (any : Bool) (a b : List ℕ) → (not any && not (bytes_beq a b)) ≡ false → (any ≡ true) ⊎ (a ≡ b)
source_bound true a b h = inl refl
source_bound false a b h = inr ((bytes_beq_iff a b).0 (ground arith))

source_ok :
    (any : Bool) (a b : List ℕ) → (any ≡ true) ⊎ (a ≡ b) → (not any && not (bytes_beq a b)) ≡ false
source_ok any a b (inl e) = rw e
source_ok true a b (inr e) = refl
source_ok false a b (inr e) = rw ((bytes_beq_iff a b).1 e)

later : (n m : ℕ) → leb n m ≡ false → m < n
later n m h = ground arith

module _ (c : Crypto) (v : SpaVerifier) (payload : List ℕ) (source : Ipv4Addr) (now : ℕ)
    (p : SpaPacket) (client : AuthorizedClient) where
  identify_sound :
      identify c v payload ≡ ok (p, client)
      → (open_packet c payload v.server_static_private ≡ ok p)
        × (lookup p.key_id v.clients ≡ some client)
        × (verify_packet c p client.public_key v.server_static_pubkey ≡ ok tt)
  unfolding identify
  identify_sound e = ground arith

  admit_sound :
      admit v source now p client ≡ ok tt
      → (client.tier ≡ full)
        × (now ≤ p.timestamp_ms + v.time_window_ms)
        × (p.timestamp_ms ≤ now + v.time_window_ms)
        × ((p.use_packet_source ≡ true) ⊎ (p.allow_ip ≡ source))
        × (highest_counter v p.key_id < p.counter)
  unfolding admit
  admit_sound e = ground (
    arith,
    is_full-eq client.tier,
    in_drift now p.timestamp_ms v.time_window_ms,
    source_bound p.use_packet_source p.allow_ip source,
    later p.counter (highest_counter v p.key_id),
  )

  authorize-parts :
      authorize c v payload source now ≡ ok (p, client)
      → (identify c v payload ≡ ok (p, client)) × (admit v source now p client ≡ ok tt)
  unfolding authorize
  authorize-parts e = ground arith

  authorize_sound :
      authorize c v payload source now ≡ ok (p, client) → Authorized c v payload source now p client
  authorize_sound e =
      let (identified, admitted) = authorize-parts e in
      let (opened, enrolled, signed) = identify_sound identified in
      let (may_proxy, not_late, not_early, bound_source, new_counter) = admit_sound admitted in
      record {
        opened = opened;
        enrolled = enrolled;
        signed = signed;
        may_proxy = may_proxy;
        not_late = not_late;
        not_early = not_early;
        bound_source = bound_source;
        new_counter = new_counter;
      }

  authorize_complete :
      Authorized c v payload source now p client → authorize c v payload source now ≡ ok (p, client)
  unfolding authorize identify admit
  authorize_complete a = rw (
    a.opened,
    a.enrolled,
    a.signed,
    a.may_proxy,
    drift_ok now p.timestamp_ms v.time_window_ms a.not_late a.not_early,
    source_ok p.use_packet_source p.allow_ip source a.bound_source,
    lt→leb p.counter (highest_counter v p.key_id) a.new_counter,
  )

  -- A payload passes exactly when the policy authorizes it, for the packet that it opens to and the
  -- client that is enrolled under its key id.
  pub authorize_iff :
      (authorize c v payload source now ≡ ok (p, client))
      ↔ Authorized c v payload source now p client
  authorize_iff = (authorize_sound, authorize_complete)
