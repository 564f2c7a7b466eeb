-- ===== src/Control/Loop.antt =====
-- ghostbro-server/src/ebpf.rs: the loop that removes a list of addresses from both maps.
use ghostbro.Base.{
  ℕ, ◌≡◌, inl, inr, refl, none, some, Bool, true, false, List, [], ◌∷◌, ◌&&◌, ◌||◌, if◌then◌else◌,
  nat_beq, nat_beq_iff, nat_eq, arith, Option-cases, Bool-cases,
}
use ghostbro.Base.Dict.{lookup, remove, lookup-remove}
use ghostbro.Base.Result.{ok, err}
use ghostbro.Gate.{AllowEntry}
use ghostbro.LruMap.{LruMap, LruMapLaws}
use ghostbro.Control.{
  AllowedSource, remove_failed, Mirror, addresses, satisfies, select, Control, remove_sources,
}

abbrev pub listed : ℕ → List ℕ → Bool
listed x [] = false
listed x (y ∷ ys) = nat_beq y x || listed x ys

listed-addresses :
    (ip : ℕ) (m : Mirror) (source : AllowedSource)
    → lookup ip m ≡ some source
    → listed ip (addresses m) ≡ true
unfolding addresses lookup
listed-addresses ip [] source h = absurd (cc h)
listed-addresses ip ((j, v) ∷ m) source h = ground (arith, h, listed-addresses ip m source)

listed-select :
    (test : AllowedSource → Bool) (m : Mirror) (ip : ℕ) (xs : List ℕ)
    → listed ip (select test m xs) ≡ (listed ip xs && satisfies test (lookup ip m))
unfolding select
listed-select test m ip [] = refl
listed-select test m ip (x ∷ xs) = elim (Bool-cases (nat_beq x ip)) [
  | inl same ↦
      let e : x ≡ ip = (nat_beq_iff x ip).0 same in
      rw e (ground (arith, listed-select test m ip xs))
  | inr other ↦ ground (arith, other, listed-select test m ip xs)
]

-- Among all addresses of the mirror, those are listed whose source passes the test.
pub listed-all :
    (test : AllowedSource → Bool) (m : Mirror) (ip : ℕ)
    → listed ip (select test m (addresses m)) ≡ satisfies test (lookup ip m)
listed-all test m ip = elim (Option-cases (lookup ip m)) [
  | inl absent ↦ rw (listed-select test m ip (addresses m), absent) (ground arith)
  | inr (source, present) ↦
      rw (listed-select test m ip (addresses m), listed-addresses ip m source present, present)
]

module _ (am : LruMap AllowEntry) (laws : LruMapLaws am) where
  -- If the loop comes to its end, exactly the listed addresses are gone from both maps.
  pub remove_sources-done :
      (xs : List ℕ) (s : Control am.Store)
      → (remove_sources am xs s).0 ≡ ok tt
      → (ip : ℕ)
      → let s' = (remove_sources am xs s).1 in
        (am.get s'.allow_map ip ≡ (if listed ip xs then none else am.get s.allow_map ip))
        × (lookup ip s'.allowed_sources
            ≡ (if listed ip xs then none else lookup ip s.allowed_sources))
  unfolding remove_sources
  remove_sources-done [] s e ip = (refl, refl)
  remove_sources-done (x ∷ xs) s e ip = elim (Option-cases (am.delete s.allow_map x)) [
    | inl absent ↦ absurd (cc (rw (absent, remove_sources) at e))
    | inr (left, deleted) ↦
        let s' : Control am.Store = record s {
          allow_map = left;
          allowed_sources = remove x s.allowed_sources;
        } in
        let rest = remove_sources-done xs s' (rw (deleted, remove_sources) at e) ip in
        rw (deleted, remove_sources)
          (
            ground (arith, rest.0, laws.get-delete s.allow_map left x ip deleted),
            ground (arith, rest.1, lookup-remove x ip s.allowed_sources),
          )
  ]

  -- The loop fails if a listed address is not in the kernel's map.
  pub remove_sources-fails :
      (xs : List ℕ) (s : Control am.Store) (ip : ℕ)
      → listed ip xs ≡ true
      → am.get s.allow_map ip ≡ none
      → (x : ℕ) × ((remove_sources am xs s).0 ≡ err (remove_failed x))
  unfolding remove_sources
  remove_sources-fails [] s ip h gone = absurd (cc h)
  remove_sources-fails (x ∷ xs) s ip h gone = elim (Option-cases (am.delete s.allow_map x)) [
    | inl absent ↦ (x, rw (absent, remove_sources))
    | inr (left, deleted) ↦
        let s' : Control am.Store = record s {
          allow_map = left;
          allowed_sources = remove x s.allowed_sources;
        } in
        let still : am.get left ip ≡ none =
          ground (arith, gone, laws.get-delete s.allow_map left x ip deleted) in
        elim (Bool-cases (nat_beq x ip)) [
          | inl same ↦
              let e : x ≡ ip = (nat_beq_iff x ip).0 same in
              absurd (cc (deleted, laws.delete_absent s.allow_map x (rw e gone)))
          | inr other ↦
              let (y, failed) = remove_sources-fails xs s' ip (ground (arith, h, other)) still in
              (y, rw (deleted, remove_sources) failed)
        ]
  ]
