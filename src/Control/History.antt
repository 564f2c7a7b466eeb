-- ===== src/Control/History.antt =====
-- ghostbro-server/src/ebpf.rs beside the XDP program: any history of candidates, purges, reapings, and
-- packets at the gate.
use ghostbro.Base.{ℕ, ◌≡◌, ◌≢◌, ◌↔◌, inl, inr, none, some, List, [], ◌∷◌}
use ghostbro.Base.Result.{ok, Result-cases}
use ghostbro.Crypto.{Crypto}
use ghostbro.Disk.{FilePath, Faults, Toml}
use ghostbro.Gate.{AllowEntry, RateState, State, Helpers, is_allowed}
use ghostbro.LruMap.{LruMap, LruMapLaws}
use ghostbro.Packet.{KeyId}
use ghostbro.Base.Bytes.{to_be_bytes}
use ghostbro.Verifier.{verify}
use ghostbro.Control.{
  Control, addresses, handle_candidate, has_key, select, expired_sources, purge_key_id,
  reap_expired_sources,
}
use ghostbro.Control.Revoke.{
  IsMirrored, remove_sources-IsMirrored, allow_source-IsMirrored, is_allowed-Mirrored,
  purge-revokes,
}

-- What happens to the two maps: three calls of user space, and a look at an address by the kernel,
-- whose other maps may be anything then.
pub data MapEvent (K : Type 0) : Type 0 where
  candidate : Faults → ℕ → ℕ → ℕ → List ℕ → ℕ → MapEvent K
  purge : KeyId → MapEvent K
  reap : ℕ → MapEvent K
  look : Helpers → ℕ → K → MapEvent K

module _ (am : LruMap AllowEntry) (rm : LruMap RateState) (toml : Toml) (temp : FilePath → FilePath)
    (c : Crypto) where
  abbrev pub after : Control am.Store → MapEvent (State am rm) → Control am.Store
  after s (candidate f now_ms now_ns ttl payload src_ip) =
      (handle_candidate am toml temp c f now_ms now_ns ttl payload src_ip s).1
  after s (purge key_id) = (purge_key_id am key_id s).1
  after s (reap now_ns) = (reap_expired_sources am now_ns s).1
  after s (look h src k) = record s {
    allow_map = (is_allowed am rm h src (record k { allow = s.allow_map })).1.allow;
  }

  abbrev pub history : Control am.Store → List (MapEvent (State am rm)) → Control am.Store
  history s [] = s
  history s (e ∷ es) = history (after s e) es

  module _ (laws : LruMapLaws am) where
    handle_candidate-IsMirrored :
        (f : Faults) (now_ms now_ns ttl : ℕ) (payload : List ℕ) (src_ip : ℕ) (s : Control am.Store)
        → IsMirrored am s
        → IsMirrored am (handle_candidate am toml temp c f now_ms now_ns ttl payload src_ip s).1
    unfolding handle_candidate
    handle_candidate-IsMirrored f now_ms now_ns ttl payload src_ip s mirrored =
        let out = verify toml temp c f s.verifier s.disk payload (to_be_bytes 4 src_ip) now_ms in
        elim (Result-cases out.0) [
          | inl (refused, result) ↦ rw (result, handle_candidate) mirrored
          | inr (accept, result) ↦
              rw (result, handle_candidate)
                (allow_source-IsMirrored am laws now_ns src_ip accept ttl
                  (record s { verifier = out.1; disk = out.2 }) mirrored)
        ]

    after-IsMirrored :
        (s : Control am.Store) (e : MapEvent (State am rm))
        → IsMirrored am s
        → IsMirrored am (after s e)
    unfolding purge_key_id reap_expired_sources
    after-IsMirrored s (candidate f now_ms now_ns ttl payload src_ip) mirrored =
        handle_candidate-IsMirrored f now_ms now_ns ttl payload src_ip s mirrored
    after-IsMirrored s (purge key_id) mirrored =
        remove_sources-IsMirrored am laws
          (select (has_key key_id) s.allowed_sources (addresses s.allowed_sources)) s mirrored
    after-IsMirrored s (reap now_ns) mirrored =
        remove_sources-IsMirrored am laws (expired_sources s.allowed_sources now_ns) s mirrored
    after-IsMirrored s (look h src k) mirrored =
        is_allowed-Mirrored am laws rm h src (record k { allow = s.allow_map }) s.allowed_sources
          mirrored

    -- Whatever user space and the kernel have done, every entry of the kernel's map is in the mirror.
    pub history-IsMirrored :
        (s : Control am.Store) (es : List (MapEvent (State am rm)))
        → IsMirrored am s
        → IsMirrored am (history s es)
    history-IsMirrored s [] mirrored = mirrored
    history-IsMirrored s (e ∷ es) mirrored =
        history-IsMirrored (after s e) es (after-IsMirrored s e mirrored)

    -- From an empty map, after any history: a purge that succeeds leaves in the kernel's map exactly the
    -- entries that do not name the revoked key.
    pub revoked_after_history :
        (s : Control am.Store) (es : List (MapEvent (State am rm))) (key_id : KeyId) (ip : ℕ)
        (e : AllowEntry)
        → ((j : ℕ) → am.get s.allow_map j ≡ none)
        → (purge_key_id am key_id (history s es)).0 ≡ ok tt
        → (am.get (purge_key_id am key_id (history s es)).1.allow_map ip ≡ some e)
          ↔ ((am.get (history s es).allow_map ip ≡ some e) × (e.key_id ≢ key_id))
    revoked_after_history s es key_id ip e empty done =
        purge-revokes am laws key_id (history s es) ip e
          (history-IsMirrored s es (λ j x h. absurd (cc (empty j, h)))) done
