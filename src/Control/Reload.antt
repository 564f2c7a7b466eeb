-- ===== src/Control/Reload.antt =====
-- ghostbro-server/src/ebpf.rs: a reload of the key file, and the purge of every key that it no longer
-- holds. The file, read and decoded, is an argument.
use ghostbro.Base.{
  ℕ, ◌≡◌, ◌≢◌, refl, ◌∙◌, inl, inr, some, Bool, true, false, ◌||◌, List, [], ◌∷◌, bytes_beq,
  bytes_beq_iff, bytes_eq, arith, Bool-cases,
}
use ghostbro.Base.Dict.{lookup, contains_key}
use ghostbro.Base.Result.{Result, ok, err, Result-cases}
use ghostbro.Gate.{AllowEntry}
use ghostbro.Keys.{AuthorizedClient, KeyError}
use ghostbro.LruMap.{LruMap, LruMapLaws}
use ghostbro.Packet.{KeyId}
use ghostbro.Verifier.{reload_clients, keys, missing_from, collect_clients}
use ghostbro.Control.{Control, ControlError, purge_key_id, select, has_key, addresses}
use ghostbro.Control.Revoke.{IsMirrored, purge-revokes, remove_sources-IsMirrored}
use ghostbro.Base.Dict.{Dict}

module _ (am : LruMap AllowEntry) where
  -- `for key_id in removed_key_ids { self.purge_key_id(&key_id)?; }`
  unfoldable pub purge_all :
      List KeyId → Control am.Store → Result ControlError (Unit {0}) × Control am.Store
  purge_all [] s = (ok tt, s)
  purge_all (key_id ∷ rest) s =
      let (purged, s') = purge_key_id am key_id s in
      elim purged [ err e ↦ (err e, s') | ok done ↦ purge_all rest s' ]

  -- A file that cannot be read changes nothing.
  unfoldable pub handle_reload :
      Result KeyError (List AuthorizedClient)
      → Control am.Store
      → Result ControlError (Unit {0}) × Control am.Store
  handle_reload file s = elim file [
    | err e ↦ (ok tt, s)
    | ok clients ↦
        let (v, removed) = reload_clients s.verifier clients in
        purge_all removed (record s { verifier = v })
  ]

abbrev id_listed : KeyId → List KeyId → Bool
id_listed k [] = false
id_listed k (j ∷ js) = bytes_beq j k || id_listed k js

id_listed-keys :
    (k : KeyId) (m : Dict KeyId AuthorizedClient)
    → contains_key m k ≡ true
    → id_listed k (keys m) ≡ true
unfolding keys lookup contains_key
id_listed-keys k [] h = absurd (cc h)
id_listed-keys k ((j, v) ∷ m) h = ground (arith, h, id_listed-keys k m)

id_listed-missing :
    (m : Dict KeyId AuthorizedClient) (k : KeyId) (ks : List KeyId)
    → contains_key m k ≡ false
    → id_listed k (missing_from m ks) ≡ id_listed k ks
unfolding missing_from
id_listed-missing m k [] h = refl
id_listed-missing m k (j ∷ ks) h = elim (Bool-cases (bytes_beq j k)) [
  | inl same ↦
      let e : j ≡ k = (bytes_beq_iff j k).0 same in
      rw (e, h) (ground (arith, id_listed-missing m k ks h))
  | inr other ↦ ground (arith, other, id_listed-missing m k ks h)
]

module _ (am : LruMap AllowEntry) (laws : LruMapLaws am) where
  purge-IsMirrored :
      (key_id : KeyId) (s : Control am.Store)
      → IsMirrored am s
      → IsMirrored am (purge_key_id am key_id s).1
  unfolding purge_key_id
  purge-IsMirrored key_id s mirrored =
      remove_sources-IsMirrored am laws
        (select (has_key key_id) s.allowed_sources (addresses s.allowed_sources)) s mirrored

  purge_all-revokes :
      (ids : List KeyId) (s : Control am.Store) (ip : ℕ) (e : AllowEntry)
      → IsMirrored am s
      → (purge_all am ids s).0 ≡ ok tt
      → am.get (purge_all am ids s).1.allow_map ip ≡ some e
      → (am.get s.allow_map ip ≡ some e) × ((k : KeyId) → id_listed k ids ≡ true → e.key_id ≢ k)
  unfolding purge_all
  purge_all-revokes [] s ip e mirrored done held = (held, λ k h. absurd (cc h))
  purge_all-revokes (j ∷ ids) s ip e mirrored done held =
      let s' = (purge_key_id am j s).1 in
      elim (Result-cases (purge_key_id am j s).0) [
        | inl (x, failed) ↦ absurd (cc (rw (failed, purge_all) at done))
        | inr (u, purged) ↦
            let (kept, apart) =
              purge_all-revokes ids s' ip e (purge-IsMirrored j s mirrored)
                (rw (purged, purge_all) at done) (rw (purged, purge_all) at held) in
            let (before, other) = (purge-revokes am laws j s ip e mirrored purged).0 kept in
            (
              before,
              λ k h. elim (Bool-cases (bytes_beq j k)) [
                | inl same ↦ rw (← (bytes_beq_iff j k).0 same) other
                | inr differs ↦ apart k (ground (arith, h, differs))
              ],
            )
      ]

  -- Where the mirror holds every entry of the kernel map: after a reload that succeeds with a file that
  -- could be read, an entry of the kernel map was there before, and names no key that was enrolled
  -- before and is no more.
  pub reload-revokes :
      (clients : List AuthorizedClient) (s : Control am.Store) (ip : ℕ) (e : AllowEntry) (k : KeyId)
      → IsMirrored am s
      → (handle_reload am (ok clients) s).0 ≡ ok tt
      → am.get (handle_reload am (ok clients) s).1.allow_map ip ≡ some e
      → contains_key s.verifier.clients k ≡ true
      → contains_key (collect_clients clients) k ≡ false
      → (am.get s.allow_map ip ≡ some e) × (e.key_id ≢ k)
  unfolding handle_reload reload_clients
  reload-revokes clients s ip e k mirrored done held old gone =
      let removed = missing_from (collect_clients clients) (keys s.verifier.clients) in
      let v = (reload_clients s.verifier clients).0 in
      let (before, apart) =
        purge_all-revokes removed (record s { verifier = v }) ip e mirrored done held in
      (
        before,
        apart k (
            id_listed-missing (collect_clients clients) k (keys s.verifier.clients) gone
            ∙ id_listed-keys k s.verifier.clients old),
      )
