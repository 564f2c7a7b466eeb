-- ===== src/Control/Revoke.antt =====
-- ghostbro-server/src/ebpf.rs: the mirror knows every entry of the kernel's map, so that purging a
-- revoked key by the mirror leaves the key no entry.
use ghostbro.Base.{ℕ, ◌≡◌, ◌≢◌, ◌↔◌, some, List, nat_eq}
use ghostbro.Base.Dict.{lookup}
use ghostbro.Base.Result.{ok}
use ghostbro.Gate.{AllowEntry, RateState, State, Helpers, is_allowed}
use ghostbro.LruMap.{LruMap, LruMapLaws}
use ghostbro.Packet.{KeyId}
use ghostbro.Verifier.{SpaAccept}
use ghostbro.Control.{AllowedSource, Mirror, Control, allow_source, remove_sources, purge_key_id}
use ghostbro.Control.Mirror.{
  MirroredIf, remove_sources-MirroredIf, allow_source-MirroredIf, is_allowed-MirroredIf,
  purge-revokes_if,
}

module _ (am : LruMap AllowEntry) where
  -- Every entry of the kernel's map is in the mirror.
  abbrev pub Mirrored : am.Store → Mirror → Type 0
  Mirrored allow sources =
      (ip : ℕ) (e : AllowEntry)
      → am.get allow ip ≡ some e
      → (source : AllowedSource) × (lookup ip sources ≡ some source) × (source.entry ≡ e)

  abbrev pub IsMirrored : Control am.Store → Type 0
  IsMirrored s = Mirrored s.allow_map s.allowed_sources

  module _ (laws : LruMapLaws am) where
    -- Every entry has the property that says nothing.
    all_entries :
        (allow : am.Store) (m : Mirror) → Mirrored allow m → MirroredIf am (λ e. Unit {0}) allow m
    all_entries allow m mirrored ip e h u = mirrored ip e h

    -- Whether the loop ends or fails, what is left in the kernel's map is in the mirror.
    pub remove_sources-IsMirrored :
        (xs : List ℕ) (s : Control am.Store) → IsMirrored s → IsMirrored (remove_sources am xs s).1
    remove_sources-IsMirrored xs s mirrored ip e h =
        remove_sources-MirroredIf am laws (λ e. Unit {0}) xs s
          (all_entries s.allow_map s.allowed_sources mirrored) ip e h tt

    pub allow_source-IsMirrored :
        (now src_ip : ℕ) (accept : SpaAccept) (ttl : ℕ) (s : Control am.Store)
        → IsMirrored s
        → IsMirrored (allow_source am now src_ip accept ttl s).1
    allow_source-IsMirrored now src_ip accept ttl s mirrored ip e h =
        allow_source-MirroredIf am laws (λ e. Unit {0}) now src_ip accept ttl s
          (all_entries s.allow_map s.allowed_sources mirrored) ip e h tt

    -- The kernel drops entries behind the mirror's back, and adds none.
    pub is_allowed-Mirrored :
        (rm : LruMap RateState) (h : Helpers) (src : ℕ) (k : State am rm) (m : Mirror)
        → Mirrored k.allow m
        → Mirrored (is_allowed am rm h src k).1.allow m
    is_allowed-Mirrored rm h src k m mirrored ip e held =
        is_allowed-MirroredIf am laws (λ e. Unit {0}) rm h src k m (all_entries k.allow m mirrored)
          ip e held tt

    -- Where the mirror holds every entry of the kernel map: after a purge that succeeds, the
    -- kernel map holds exactly the entries it held before for other keys. None of the revoked key
    -- is left, and none of another is lost.
    pub purge-revokes :
        (key_id : KeyId) (s : Control am.Store) (ip : ℕ) (e : AllowEntry)
        → IsMirrored s
        → (purge_key_id am key_id s).0 ≡ ok tt
        → (am.get (purge_key_id am key_id s).1.allow_map ip ≡ some e)
          ↔ ((am.get s.allow_map ip ≡ some e) × (e.key_id ≢ key_id))
    purge-revokes key_id s ip e mirrored done =
        purge-revokes_if am laws (λ e. Unit {0}) key_id s ip e
          (all_entries s.allow_map s.allowed_sources mirrored) tt done
