-- ===== src/Relay/Path/JobId.antt =====
-- ghostbro-server/src/relay.rs: the paths of a job with a valid id reach the files of its own client.
use ghostbro.Base.{
  ℕ, ◌≡◌, ◌≢◌, refl, sym, ◌∙◌, Option, none, some, true, false, List, [], ◌∷◌, ◌++◌, arith, All,
  nat_beq, bytes_beq_refl,
}
use mathlib.Core.List.{append-nil}
use ghostbro.Relay.Path.{
  FilePath, paths_beq, components, enter, walk, join, jobs_name, objects_name, toml_suffix,
  body_suffix, md_suffix, metadata_path, primary_object_path, normalized_object_path, metadata_of,
  body_of, markdown_of, push_front, strip_suffix, place_in, place,
}

-- A byte that has no meaning in a path or a suffix.
abbrev pub IsPlain : ℕ → Type 0
IsPlain b = (b ≢ b'/') × (b ≢ b'.')

components-append :
    (id suffix : List ℕ)
    → All IsPlain id
    → components suffix ≡ suffix ∷ []
    → components (id ++ suffix) ≡ (id ++ suffix) ∷ []
unfolding components
components-append [] suffix plain one = one
components-append (b ∷ id) suffix plain one =
    let slash : nat_beq b b'/' ≡ false = ground (arith, plain.0.0) in
    rw (slash, components-append id suffix plain.1 one) refl

enter-append :
    (here : FilePath) (id suffix : List ℕ)
    → All IsPlain id
    → enter here suffix ≡ suffix ∷ here
    → enter here (id ++ suffix) ≡ (id ++ suffix) ∷ here
enter-append here [] suffix plain one = one
enter-append here (b ∷ id) suffix plain one =
    let dot : nat_beq b b'.' ≡ false = ground (arith, plain.0.1) in rw dot refl

-- A suffix: a name of its own, in one component.
pub record IsSuffix (suffix : List ℕ) : Type 0 where
  pub one : components suffix ≡ suffix ∷ []
  pub enters : (here : FilePath) → enter here suffix ≡ suffix ∷ here
  pub joins : (here : FilePath) → join here suffix ≡ suffix ∷ here

join-append :
    (here : FilePath) (id suffix : List ℕ)
    → All IsPlain id
    → IsSuffix suffix
    → join here (id ++ suffix) ≡ (id ++ suffix) ∷ here
unfolding join walk
join-append here [] suffix plain s = s.joins here
join-append here (b ∷ id) suffix plain s =
    let slash : nat_beq b b'/' ≡ false = ground (arith, plain.0.0) in
    rw (slash, components-append (b ∷ id) suffix plain s.one)
      (enter-append here (b ∷ id) suffix plain (s.enters here))

toml-IsSuffix : IsSuffix toml_suffix
toml-IsSuffix = record {
  one = unfold components in refl;
  enters = λ here. refl;
  joins = λ here. unfold join walk components in refl;
}

body-IsSuffix : IsSuffix body_suffix
body-IsSuffix = record {
  one = unfold components in refl;
  enters = λ here. refl;
  joins = λ here. unfold join walk components in refl;
}

md-IsSuffix : IsSuffix md_suffix
md-IsSuffix = record {
  one = unfold components in refl;
  enters = λ here. refl;
  joins = λ here. unfold join walk components in refl;
}

abbrev with_front : List ℕ → Option (List ℕ) → Option (List ℕ)
with_front id none = none
with_front id (some bs) = some (id ++ bs)

push_front-with_front :
    (b : ℕ) (id : List ℕ) (o : Option (List ℕ))
    → push_front b (with_front id o) ≡ with_front (b ∷ id) o
push_front-with_front b id none = refl
push_front-with_front b id (some bs) = refl

with_front-nil : (o : Option (List ℕ)) → with_front [] o ≡ o
with_front-nil none = refl
with_front-nil (some bs) = refl

-- Where a suffix is looked for behind plain bytes.
strip_suffix-append :
    (id rest suffix : List ℕ)
    → All IsPlain id
    → strip_suffix (b'.' ∷ suffix) (id ++ rest) ≡ with_front id (strip_suffix (b'.' ∷ suffix) rest)
unfolding strip_suffix
strip_suffix-append [] rest suffix plain = sym (with_front-nil (strip_suffix (b'.' ∷ suffix) rest))
strip_suffix-append (b ∷ id) rest suffix plain =
    let dot : nat_beq b b'.' ≡ false = ground (arith, plain.0.1) in
    rw (dot, strip_suffix-append id rest suffix plain.1)
      (push_front-with_front b id (strip_suffix (b'.' ∷ suffix) rest))

paths_beq_refl : (p : FilePath) → paths_beq p p ≡ true
paths_beq_refl [] = refl
paths_beq_refl (c ∷ p) = rw (bytes_beq_refl c, paths_beq_refl p) refl

module _ (spool_dir : FilePath) (client id : List ℕ) (plain : All IsPlain id) where
  pub place-metadata_path :
      place spool_dir (metadata_path (client ∷ spool_dir) id) ≡ metadata_of client id
  unfolding place metadata_path place_in
  place-metadata_path =
      let there = join-append (jobs_name ∷ client ∷ spool_dir) id toml_suffix plain toml-IsSuffix in
      let named : strip_suffix toml_suffix (id ++ toml_suffix) ≡ some (id ++ []) =
        strip_suffix-append id toml_suffix _ plain ∙ (unfold strip_suffix in refl) in
      rw (there, paths_beq_refl spool_dir, named, append-nil id) refl

  pub place-primary_object_path :
      place spool_dir (primary_object_path (client ∷ spool_dir) id) ≡ body_of client id
  unfolding place primary_object_path place_in
  place-primary_object_path =
      let there =
        join-append (objects_name ∷ client ∷ spool_dir) id body_suffix plain body-IsSuffix in
      let named : strip_suffix body_suffix (id ++ body_suffix) ≡ some (id ++ []) =
        strip_suffix-append id body_suffix _ plain ∙ (unfold strip_suffix in refl) in
      rw (there, paths_beq_refl spool_dir, named, append-nil id) refl

  pub place-normalized_object_path :
      place spool_dir (normalized_object_path (client ∷ spool_dir) id) ≡ markdown_of client id
  unfolding place normalized_object_path place_in
  place-normalized_object_path =
      let there = join-append (objects_name ∷ client ∷ spool_dir) id md_suffix plain md-IsSuffix in
      let unnamed : strip_suffix body_suffix (id ++ md_suffix) ≡ none =
        strip_suffix-append id md_suffix _ plain ∙ (unfold strip_suffix in refl) in
      let named : strip_suffix md_suffix (id ++ md_suffix) ≡ some (id ++ []) =
        strip_suffix-append id md_suffix _ plain ∙ (unfold strip_suffix in refl) in
      rw (there, paths_beq_refl spool_dir, unnamed, named, append-nil id) refl
