-- ===== src/Control/Mirror.antt =====
-- ghostbro-server/src/ebpf.rs: which entries of the kernel's map the mirror knows, and what purging by the
-- mirror leaves of them.
use ghostbro.Base.{
  ℕ, ◌≡◌, ◌≢◌, ◌↔◌, inl, inr, ap, ◌∙◌, sym, some, true, List, [], ◌∷◌, nat_beq, nat_beq_iff, nat_eq,
  bytes_beq, bytes_beq_iff, arith, Option-cases, Bool-cases, leb,
}
use ghostbro.Base.Dict.{lookup, insert, remove, lookup-remove, lookup-insert}
use ghostbro.Base.Result.{ok}
use ghostbro.Gate.{AllowEntry, RateState, State, Helpers, is_allowed}
use ghostbro.LruMap.{LruMap, LruMapLaws}
use ghostbro.Packet.{KeyId}
use ghostbro.Verifier.{SpaAccept}
use ghostbro.Control.{
  AllowedSource, Mirror, addresses, select, has_key, Control, allow_source, remove_sources,
  purge_key_id, expiry_after,
}
use ghostbro.Control.Loop.{listed, listed-all, remove_sources-done}

module _ (am : LruMap AllowEntry) where
  -- Every entry of the kernel's map with a property is in the mirror.
  abbrev pub MirroredIf : (AllowEntry → Type 0) → am.Store → Mirror → Type 0
  MirroredIf Q allow sources =
      (ip : ℕ) (e : AllowEntry)
      → am.get allow ip ≡ some e
      → Q e
      → (source : AllowedSource) × (lookup ip sources ≡ some source) × (source.entry ≡ e)

  module _ (laws : LruMapLaws am) (Q : AllowEntry → Type 0) where
    delete-MirroredIf :
        (allow left : am.Store) (m : Mirror) (x : ℕ)
        → am.delete allow x ≡ some left
        → MirroredIf Q allow m
        → MirroredIf Q left (remove x m)
    delete-MirroredIf allow left m x deleted mirrored ip e h q = elim (Bool-cases (nat_beq x ip)) [
      | inl same ↦ absurd (cc (h, rw same at (laws.get-delete allow left x ip deleted)))
      | inr other ↦
          let before : am.get allow ip ≡ some e =
            ground (arith, h, other, laws.get-delete allow left x ip deleted) in
          let (source, held, entry) = mirrored ip e before q in
          (source, ground (arith, other, held, lookup-remove x ip m), entry)
    ]

    pub remove_sources-MirroredIf :
        (xs : List ℕ) (s : Control am.Store)
        → MirroredIf Q s.allow_map s.allowed_sources
        → let s' = (remove_sources am xs s).1 in MirroredIf Q s'.allow_map s'.allowed_sources
    unfolding remove_sources
    remove_sources-MirroredIf [] s mirrored = mirrored
    remove_sources-MirroredIf (x ∷ xs) s mirrored = elim (Option-cases (am.delete s.allow_map x)) [
      | inl absent ↦ rw (absent, remove_sources) mirrored
      | inr (left, deleted) ↦
          rw (deleted, remove_sources)
            (remove_sources-MirroredIf xs
              (record s { allow_map = left; allowed_sources = remove x s.allowed_sources })
              (delete-MirroredIf s.allow_map left s.allowed_sources x deleted mirrored))
    ]

    update-MirroredIf :
        (allow written : am.Store) (m : Mirror) (x : ℕ) (source : AllowedSource)
        → am.update allow x source.entry ≡ some written
        → MirroredIf Q allow m
        → MirroredIf Q written (insert x source m)
    update-MirroredIf allow written m x source updated mirrored ip e h q =
        elim (Bool-cases (nat_beq x ip)) [
          | inl same ↦
              let at_x : x ≡ ip = (nat_beq_iff x ip).0 same in
              let new : am.get written ip ≡ some source.entry =
                rw (← at_x) (laws.get-update_self allow written x source.entry updated) in
              (source, ground (arith, same, lookup-insert x ip source m), cc (new, h))
          | inr other ↦
              let apart : x ≢ ip = λ p. absurd (cc (other, (nat_beq_iff x ip).1 p)) in
              elim (laws.get-update_other allow written x ip source.entry updated apart) [
                | inl kept ↦
                    let (old, held, entry) = mirrored ip e (sym kept ∙ h) q in
                    (old, ground (arith, other, held, lookup-insert x ip source m), entry)
                | inr evicted ↦ absurd (cc (evicted, h))
              ]
        ]

    pub allow_source-MirroredIf :
        (now src_ip : ℕ) (accept : SpaAccept) (ttl : ℕ) (s : Control am.Store)
        → MirroredIf Q s.allow_map s.allowed_sources
        → let s' = (allow_source am now src_ip accept ttl s).1 in
          MirroredIf Q s'.allow_map s'.allowed_sources
    unfolding allow_source
    allow_source-MirroredIf now src_ip accept ttl s mirrored =
        let entry : AllowEntry = record {
          expiry_ns = expiry_after now ttl;
          key_id = accept.key_id;
          client_id = accept.client_id;
        } in
        elim (Option-cases (am.update s.allow_map src_ip entry)) [
          | inl failed ↦ rw (failed, allow_source) mirrored
          | inr (written, updated) ↦
              rw (updated, allow_source)
                (update-MirroredIf s.allow_map written s.allowed_sources src_ip _ updated mirrored)
        ]

    drop_key-MirroredIf :
        (allow : am.Store) (m : Mirror) (src : ℕ)
        → MirroredIf Q allow m
        → MirroredIf Q (am.drop_key allow src) m
    drop_key-MirroredIf allow m src mirrored ip e held q =
        mirrored ip e (ground (arith, held, laws.get-drop_key allow src ip)) q

    pub is_allowed-MirroredIf :
        (rm : LruMap RateState) (h : Helpers) (src : ℕ) (k : State am rm) (m : Mirror)
        → MirroredIf Q k.allow m
        → MirroredIf Q (is_allowed am rm h src k).1.allow m
    unfolding is_allowed
    is_allowed-MirroredIf rm h src k m mirrored = elim (Option-cases (am.get k.allow src)) [
      | inl absent ↦ simp (absent, is_allowed) mirrored
      | inr (entry, present) ↦ elim (Bool-cases (leb entry.expiry_ns h.now_allow)) [
        | inl old ↦ simp (present, is_allowed, old) (drop_key-MirroredIf k.allow m src mirrored)
        | inr live ↦ simp (present, is_allowed, live) mirrored
      ]
    ]

    -- For the entries with the property: a purge that succeeds leaves exactly those of other keys.
    pub purge-revokes_if :
        (key_id : KeyId) (s : Control am.Store) (ip : ℕ) (e : AllowEntry)
        → MirroredIf Q s.allow_map s.allowed_sources
        → Q e
        → (purge_key_id am key_id s).0 ≡ ok tt
        → (am.get (purge_key_id am key_id s).1.allow_map ip ≡ some e)
          ↔ ((am.get s.allow_map ip ≡ some e) × (e.key_id ≢ key_id))
    unfolding purge_key_id
    purge-revokes_if key_id s ip e mirrored q done =
        let m = s.allowed_sources in
        let xs = select (has_key key_id) m (addresses m) in
        let (kept, _) = remove_sources-done am laws xs s done ip in
        let chosen = listed-all (has_key key_id) m ip in
        (
          λ h. elim (Bool-cases (listed ip xs)) [
            | inl gone ↦ absurd (cc (h, rw gone at kept))
            | inr stays ↦
                let before : am.get s.allow_map ip ≡ some e = sym (rw stays at kept) ∙ h in
                let (source, held, entry) = mirrored ip e before q in
                (
                  before,
                  λ p.
                      let same =
                        (bytes_beq_iff source.entry.key_id key_id).1
                          (ap (λ x. x.key_id) entry ∙ p) in
                      absurd (cc (stays, rw (held, same) at chosen)),
                )
          ],
          λ (before, other). elim (Bool-cases (listed ip xs)) [
            | inl gone ↦
                let (source, held, entry) = mirrored ip e before q in
                let same : bytes_beq source.entry.key_id key_id ≡ true =
                  sym (rw held at chosen) ∙ gone in
                absurd (
                  other (
                    sym (ap (λ x. x.key_id) entry)
                    ∙ (bytes_beq_iff source.entry.key_id key_id).0 same))
            | inr stays ↦ rw stays at kept ∙ before
          ],
        )
