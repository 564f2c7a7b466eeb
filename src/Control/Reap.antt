-- ===== src/Control/Reap.antt =====
-- ghostbro-server/src/ebpf.rs: the reaper, and what becomes of it once the kernel has dropped an entry
-- itself.
use ghostbro.Base.{
  ℕ, ◌≡◌, ◌≤◌, ◌<◌, ◌↔◌, inl, inr, ◌∙◌, sym, none, some, true, false, arith, leb, le→leb, nat_eq,
  Bool-cases,
}
use ghostbro.Base.Dict.{lookup}
use ghostbro.Base.Result.{ok, err}
use ghostbro.Gate.{AllowEntry, RateState, State, Helpers, is_allowed}
use ghostbro.LruMap.{LruMap, LruMapLaws}
use ghostbro.Control.{
  AllowedSource, remove_failed, addresses, select, is_expired, expired_sources, Control,
  reap_expired_sources,
}
use ghostbro.Control.Loop.{listed, listed-all, remove_sources-done, remove_sources-fails}
use ghostbro.Control.Revoke.{IsMirrored}

module _ (am : LruMap AllowEntry) (laws : LruMapLaws am) where
  -- Where the mirror holds every entry of the kernel map: after a reaping that succeeds, the
  -- kernel map holds exactly the entries it held before that have not expired.
  pub reap-expires :
      (now : ℕ) (s : Control am.Store) (ip : ℕ) (e : AllowEntry)
      → IsMirrored am s
      → (reap_expired_sources am now s).0 ≡ ok tt
      → (am.get (reap_expired_sources am now s).1.allow_map ip ≡ some e)
        ↔ ((am.get s.allow_map ip ≡ some e) × (now < e.expiry_ns))
  unfolding reap_expired_sources expired_sources
  reap-expires now s ip e mirrored done =
      let m = s.allowed_sources in
      let xs = select (is_expired now) m (addresses m) in
      let (kept, _) = remove_sources-done am laws xs s done ip in
      let chosen = listed-all (is_expired now) m ip in
      (
        λ h. elim (Bool-cases (listed ip xs)) [
          | inl gone ↦ absurd (cc (h, rw gone at kept))
          | inr stays ↦
              let before : am.get s.allow_map ip ≡ some e = sym (rw stays at kept) ∙ h in
              let (source, held, entry) = mirrored ip e before in
              let live : leb source.entry.expiry_ns now ≡ false = sym (rw held at chosen) ∙ stays in
              (before, rw (← entry) (ground (arith, live)))
        ],
        λ (before, later). elim (Bool-cases (listed ip xs)) [
          | inl gone ↦
              let (source, held, entry) = mirrored ip e before in
              let old : leb source.entry.expiry_ns now ≡ true = sym (rw held at chosen) ∙ gone in
              absurd (ground (arith, rw entry at old, later))
          | inr stays ↦ rw stays at kept ∙ before
        ],
      )

  is_allowed-drops :
      (rm : LruMap RateState) (h : Helpers) (k : State am rm) (ip : ℕ) (e : AllowEntry)
      → am.get k.allow ip ≡ some e
      → e.expiry_ns ≤ h.now_allow
      → am.get (is_allowed am rm h ip k).1.allow ip ≡ none
  unfolding is_allowed
  is_allowed-drops rm h k ip e present old =
      let expired = le→leb e.expiry_ns h.now_allow old in
      let dropped : am.get (am.drop_key k.allow ip) ip ≡ none =
        ground (arith, laws.get-drop_key k.allow ip ip) in
      simp (present, is_allowed, expired) dropped

  -- Once the kernel has met an expired entry of a source, and removed it from its map, while the
  -- mirror still lists the source: a reaping at that time or later fails with an error, which
  -- ends the loop that verifies packets.
  pub reap_fails :
      (rm : LruMap RateState) (h : Helpers) (k : State am rm) (s : Control am.Store) (now ip : ℕ)
      (source : AllowedSource)
      → am.get k.allow ip ≡ some source.entry
      → lookup ip s.allowed_sources ≡ some source
      → source.entry.expiry_ns ≤ h.now_allow
      → h.now_allow ≤ now
      → let s' = record s { allow_map = (is_allowed am rm h ip k).1.allow } in
        (x : ℕ) × ((reap_expired_sources am now s').0 ≡ err (remove_failed x))
  unfolding reap_expired_sources expired_sources
  reap_fails rm h k s now ip source present held old later =
      let m = s.allowed_sources in
      let expired : leb source.entry.expiry_ns now ≡ true =
        le→leb source.entry.expiry_ns now (omega arith) in
      let chosen : listed ip (select (is_expired now) m (addresses m)) ≡ true =
        listed-all (is_expired now) m ip ∙ rw (held, expired) in
      remove_sources-fails am laws (select (is_expired now) m (addresses m))
        (record s { allow_map = (is_allowed am rm h ip k).1.allow }) ip chosen
        (is_allowed-drops rm h k ip source.entry present old)
