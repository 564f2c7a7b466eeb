-- ===== src/Control/Connections.antt =====
-- ghostbro-server/src/ebpf.rs beside ghostbro-server/src/noise.rs: histories with connections, each of which
-- looks its source up in the mirror, and takes it out there, and only there, when it has expired.
use ghostbro.Base.{
  ℕ, ◌≤◌, ◌<◌, ◌≡◌, ◌≢◌, ◌↔◌, ◌∙◌, sym, ap, inl, inr, none, some, List, [], ◌∷◌, arith, nat_beq,
  nat_beq_iff, nat_eq, Bool-cases, Option-cases, leb, true,
}
use ghostbro.Base.Dict.{lookup, remove, lookup-remove}
use ghostbro.Base.Result.{ok, Result-cases}
use ghostbro.Base.Bytes.{to_be_bytes}
use ghostbro.Crypto.{Crypto}
use ghostbro.Disk.{FilePath, Faults, Toml}
use ghostbro.Gate.{AllowEntry, RateState, State}
use ghostbro.LruMap.{LruMap, LruMapLaws}
use ghostbro.Packet.{KeyId}
use mathlib.Core.Option.{some-injective}
use ghostbro.Verifier.{verify}
use ghostbro.Control.{
  AllowedSource, Mirror, Control, addresses, handle_candidate, has_key, select, expired_sources,
  purge_key_id, reap_expired_sources,
}
use ghostbro.Control.Mirror.{
  MirroredIf, remove_sources-MirroredIf, allow_source-MirroredIf, is_allowed-MirroredIf,
  purge-revokes_if,
}
use ghostbro.Control.History.{MapEvent, candidate, purge, reap, look, after}
use ghostbro.Noise.Handler.{PeerIp, ipv4, ipv6, find_source}

-- What happens to the maps, connections included.
pub data ServerEvent (K : Type 0) : Type 0 where
  on_maps : MapEvent K → ServerEvent K
  connects : PeerIp → ℕ → ServerEvent K

-- An entry that expires after a time.
abbrev pub Outlives : ℕ → AllowEntry → Type 0
Outlives t e = t < e.expiry_ns

module _ (am : LruMap AllowEntry) (rm : LruMap RateState) (toml : Toml) (temp : FilePath → FilePath)
    (c : Crypto) where
  abbrev pub after_event : Control am.Store → ServerEvent (State am rm) → Control am.Store
  after_event s (on_maps e) = after am rm toml temp c s e
  after_event s (connects peer now_ns) = record s {
    allowed_sources = (find_source peer now_ns s.allowed_sources).1;
  }

  abbrev pub full_history : Control am.Store → List (ServerEvent (State am rm)) → Control am.Store
  full_history s [] = s
  full_history s (e ∷ es) = full_history (after_event s e) es

  -- No connection comes after a time.
  abbrev pub ConnectsBy : ℕ → List (ServerEvent (State am rm)) → Type 0
  ConnectsBy t [] = Unit {0}
  ConnectsBy t (on_maps e ∷ es) = ConnectsBy t es
  ConnectsBy t (connects peer now_ns ∷ es) = (now_ns ≤ t) × ConnectsBy t es

  module _ (laws : LruMapLaws am) (t : ℕ) where
    -- Every entry of the kernel's map that expires after the time is in the mirror.
    abbrev IsMirroredAfter : Control am.Store → Type 0
    IsMirroredAfter s = MirroredIf am (Outlives t) s.allow_map s.allowed_sources

    find_source-keeps :
        (peer : PeerIp) (now_ns ip : ℕ) (m : Mirror) (source : AllowedSource)
        → now_ns ≤ t
        → lookup ip m ≡ some source
        → Outlives t source.entry
        → lookup ip (find_source peer now_ns m).1 ≡ some source
    unfolding find_source
    find_source-keeps ipv6 now_ns ip m source by held open_after = held
    find_source-keeps (ipv4 src_ip) now_ns ip m source by held open_after =
        elim (Option-cases (lookup src_ip m)) [
          | inl absent ↦ simp (absent, find_source) held
          | inr (entry, present) ↦ elim (Bool-cases (leb entry.entry.expiry_ns now_ns)) [
            | inr live ↦ simp (present, live, find_source) held
            | inl old ↦ simp (present, old, find_source) (kept entry present old)
          ]
        ]
      where
        kept :
            (found : AllowedSource)
            → lookup src_ip m ≡ some found
            → leb found.entry.expiry_ns now_ns ≡ true
            → lookup ip (remove src_ip m) ≡ some source
        kept found present old = elim (Bool-cases (nat_beq src_ip ip)) [
          | inl same ↦
              let e : src_ip ≡ ip = (nat_beq_iff src_ip ip).0 same in
              let one : found ≡ source =
                some-injective found source (sym present ∙ ap (λ i. lookup i m) e ∙ held) in
              absurd (ground (arith, old, by, open_after, ap (λ x. x.entry.expiry_ns) one))
          | inr other ↦ ground (arith, other, held, lookup-remove src_ip ip m)
        ]

    connects-IsMirroredAfter :
        (peer : PeerIp) (now_ns : ℕ) (s : Control am.Store)
        → now_ns ≤ t
        → IsMirroredAfter s
        → IsMirroredAfter (after_event s (connects peer now_ns))
    connects-IsMirroredAfter peer now_ns s by mirrored ip e h open_after =
        let (source, held, entry) = mirrored ip e h open_after in
        let open_source : Outlives t source.entry = rw entry open_after in
        (
          source,
          find_source-keeps peer now_ns ip s.allowed_sources source by held open_source,
          entry,
        )

    candidate-IsMirroredAfter :
        (f : Faults) (now_ms now_ns ttl : ℕ) (payload : List ℕ) (src_ip : ℕ) (s : Control am.Store)
        → IsMirroredAfter s
        → IsMirroredAfter (handle_candidate am toml temp c f now_ms now_ns ttl payload src_ip s).1
    unfolding handle_candidate
    candidate-IsMirroredAfter f now_ms now_ns ttl payload src_ip s mirrored =
        let out = verify toml temp c f s.verifier s.disk payload (to_be_bytes 4 src_ip) now_ms in
        elim (Result-cases out.0) [
          | inl (refused, result) ↦ rw (result, handle_candidate) mirrored
          | inr (accept, result) ↦
              rw (result, handle_candidate)
                (allow_source-MirroredIf am laws (Outlives t) now_ns src_ip accept ttl
                  (record s { verifier = out.1; disk = out.2 }) mirrored)
        ]

    after_event-IsMirroredAfter :
        (s : Control am.Store) (e : ServerEvent (State am rm))
        → ConnectsBy t (e ∷ [])
        → IsMirroredAfter s
        → IsMirroredAfter (after_event s e)
    unfolding purge_key_id reap_expired_sources
    after_event-IsMirroredAfter s (on_maps (candidate f now_ms now_ns ttl payload src_ip)) by
          mirrored =
        candidate-IsMirroredAfter f now_ms now_ns ttl payload src_ip s mirrored
    after_event-IsMirroredAfter s (on_maps (purge key_id)) by mirrored =
        remove_sources-MirroredIf am laws (Outlives t)
          (select (has_key key_id) s.allowed_sources (addresses s.allowed_sources)) s mirrored
    after_event-IsMirroredAfter s (on_maps (reap now_ns)) by mirrored =
        remove_sources-MirroredIf am laws (Outlives t) (expired_sources s.allowed_sources now_ns) s
          mirrored
    after_event-IsMirroredAfter s (on_maps (look h src k)) by mirrored =
        is_allowed-MirroredIf am laws (Outlives t) rm h src (record k { allow = s.allow_map })
          s.allowed_sources mirrored
    after_event-IsMirroredAfter s (connects peer now_ns) by mirrored =
        connects-IsMirroredAfter peer now_ns s by.0 mirrored

    full_history-IsMirroredAfter :
        (s : Control am.Store) (es : List (ServerEvent (State am rm)))
        → ConnectsBy t es
        → IsMirroredAfter s
        → IsMirroredAfter (full_history s es)
    full_history-IsMirroredAfter s [] by mirrored = mirrored
    full_history-IsMirroredAfter s (on_maps e ∷ es) by mirrored =
        full_history-IsMirroredAfter (after_event s (on_maps e)) es by
          (after_event-IsMirroredAfter s (on_maps e) tt mirrored)
    full_history-IsMirroredAfter s (connects peer now_ns ∷ es) by mirrored =
        full_history-IsMirroredAfter (after_event s (connects peer now_ns)) es by.1
          (after_event-IsMirroredAfter s (connects peer now_ns) (by.0, tt) mirrored)

    -- From an empty kernel map, after any history of candidates, purges, reapings, lookups by the kernel and
    -- connections, where no connection comes after the time t: a purge that succeeds leaves, of the entries
    -- that expire after t, exactly those that do not name the revoked key.
    pub revoked_after_connections :
        (s : Control am.Store) (es : List (ServerEvent (State am rm))) (key_id : KeyId) (ip : ℕ)
        (e : AllowEntry)
        → ((j : ℕ) → am.get s.allow_map j ≡ none)
        → ConnectsBy t es
        → Outlives t e
        → (purge_key_id am key_id (full_history s es)).0 ≡ ok tt
        → (am.get (purge_key_id am key_id (full_history s es)).1.allow_map ip ≡ some e)
          ↔ ((am.get (full_history s es).allow_map ip ≡ some e) × (e.key_id ≢ key_id))
    revoked_after_connections s es key_id ip e empty by open_after done =
        purge-revokes_if am laws (Outlives t) key_id (full_history s es) ip e
          (full_history-IsMirroredAfter s es by (λ j x h q. absurd (cc (empty j, h)))) open_after
          done
