-- ===== src/Relay/Package.antt =====
-- ghostbro-server/src/relay.rs: PackageSpec, its text in the metadata of a job, and the checks of its parts.
-- Text is its UTF-8 bytes.
use ghostbro.Base.{
  ℕ, ◌+◌, Option, none, some, List, [], ◌∷◌, ◌++◌, Bool, true, false, ◌&&◌, ◌||◌, not,
  if◌then◌else◌, ltb, leb, nat_beq, length, bytes_beq, bytes_eq,
}
use ghostbro.Base.Result.{Result, ok, err, ◌>>=◌, ◌>>◌, fail_if, ok_or}
use ghostbro.Relay.{
  External, RelayError, unsupported_ecosystem, invalid_name, invalid_version, version_required,
  malformed_spec,
}

pub data Ecosystem : Type 0 where
  pypi npm crates : Ecosystem

pub record PackageSpec : Type 0 where
  pub ecosystem : Ecosystem
  pub name : List ℕ
  pub version : Option (List ℕ)

abbrev pub within : ℕ → ℕ → ℕ → Bool
within lo hi b = leb lo b && leb b hi

abbrev pub is_ascii_alphanumeric : ℕ → Bool
is_ascii_alphanumeric b = within b'a' b'z' b || within b'A' b'Z' b || within b'0' b'9' b

abbrev pub is_ascii_hexdigit : ℕ → Bool
is_ascii_hexdigit b = within b'0' b'9' b || within b'a' b'f' b || within b'A' b'F' b

unfoldable pub to_ascii_lowercase : List ℕ → List ℕ
to_ascii_lowercase [] = []
to_ascii_lowercase (b ∷ bs) = (if within b'A' b'Z' b then b + 32 else b) ∷ to_ascii_lowercase bs

unfoldable pub all_bytes : (ℕ → Bool) → List ℕ → Bool
all_bytes test [] = true
all_bytes test (b ∷ bs) = test b && all_bytes test bs

-- `name.contains("..")`
unfoldable pub contains_dots : List ℕ → Bool
contains_dots [] = false
contains_dots (a ∷ []) = false
contains_dots (a ∷ b ∷ bs) = (nat_beq a b'.' && nat_beq b b'.') || contains_dots (b ∷ bs)

abbrev pub is_name_byte : ℕ → Bool
is_name_byte b =
    is_ascii_alphanumeric b
    || nat_beq b b'-'
    || nat_beq b b'_'
    || nat_beq b b'.'
    || nat_beq b b'/'
    || nat_beq b b'@'

abbrev pub is_version_byte : ℕ → Bool
is_version_byte b =
    is_ascii_alphanumeric b || nat_beq b b'-' || nat_beq b b'_' || nat_beq b b'.' || nat_beq b b'+'

unfoldable pub validate_package_name : List ℕ → Result RelayError (Unit {0})
validate_package_name name = do
  fail_if (nat_beq (length name) 0 || ltb 256 (length name)) invalid_name
  fail_if (contains_dots name) invalid_name
  fail_if (not (all_bytes is_name_byte name)) invalid_name

unfoldable pub validate_package_version : List ℕ → Result RelayError (Unit {0})
validate_package_version version = do
  fail_if (ltb 128 (length version)) invalid_version
  fail_if (not (all_bytes is_version_byte version)) invalid_version

abbrev pub ecosystem_name : Ecosystem → List ℕ
ecosystem_name pypi = b'p' ∷ b'y' ∷ b'p' ∷ b'i' ∷ []
ecosystem_name npm = b'n' ∷ b'p' ∷ b'm' ∷ []
ecosystem_name crates = b'c' ∷ b'r' ∷ b'a' ∷ b't' ∷ b'e' ∷ b's' ∷ []

abbrev pip : List ℕ
pip = b'p' ∷ b'i' ∷ b'p' ∷ []

abbrev cargo : List ℕ
cargo = b'c' ∷ b'a' ∷ b'r' ∷ b'g' ∷ b'o' ∷ []

-- The match on the name in lower case.
unfoldable pub parse_ecosystem : List ℕ → Result RelayError Ecosystem
parse_ecosystem lower =
    if bytes_beq lower (ecosystem_name pypi) || bytes_beq lower pip
    then ok pypi
    else if bytes_beq lower (ecosystem_name npm)
    then ok npm
    else if bytes_beq lower (ecosystem_name crates) || bytes_beq lower cargo
    then ok crates
    else err unsupported_ecosystem

abbrev pub valid_version : Option (List ℕ) → Result RelayError (Unit {0})
valid_version none = ok tt
valid_version (some version) = validate_package_version version

-- Crates have an explicit version.
abbrev pub lacks_version : Ecosystem → Option (List ℕ) → Bool
lacks_version crates none = true
lacks_version crates (some version) = false
lacks_version pypi version = false
lacks_version npm version = false

unfoldable pub encode : PackageSpec → List ℕ
encode spec =
    ecosystem_name spec.ecosystem
    ++ (b':'
        ∷ elim spec.version [ none ↦ spec.name | some version ↦ spec.name ++ (b'@' ∷ version) ])

-- `str::split_once`
unfoldable pub split_once : ℕ → List ℕ → Option (List ℕ × List ℕ)
split_once mark [] = none
split_once mark (b ∷ bs) =
    let rest = split_once mark bs in
    if nat_beq b mark
    then some ([], bs)
    else elim rest [ none ↦ none | some (before, after) ↦ some (b ∷ before, after) ]

-- `str::rsplit_once`
unfoldable pub rsplit_once : ℕ → List ℕ → Option (List ℕ × List ℕ)
rsplit_once mark [] = none
rsplit_once mark (b ∷ bs) = elim (rsplit_once mark bs) [
  | some (before, after) ↦ some (b ∷ before, after)
  | none ↦ if nat_beq b mark then some ([], bs) else none
]

-- The guard for the scope of an npm name, which has no version before its `@`.
abbrev pub name_and_version : List ℕ → Option (List ℕ × List ℕ) → List ℕ × List ℕ
name_and_version rest none = (rest, [])
name_and_version rest (some ([], version)) = (rest, [])
name_and_version rest (some (b ∷ bs, version)) = (b ∷ bs, version)

module _ (x : External) where
  unfoldable pub non_empty : List ℕ → Option (List ℕ)
  non_empty value =
      let trimmed = x.trim value in if nat_beq (length trimmed) 0 then none else some trimmed

  unfoldable pub parse : List ℕ → List ℕ → List ℕ → Result RelayError PackageSpec
  parse ecosystem name version = do
    eco ← parse_ecosystem (to_ascii_lowercase ecosystem)
    validate_package_name name
    valid_version (non_empty version)
    fail_if (lacks_version eco (non_empty version)) version_required
    ok (record { ecosystem = eco; name = name; version = non_empty version })

  unfoldable pub decode : List ℕ → Result RelayError PackageSpec
  decode encoded = do
    (eco, rest) ← ok_or (split_once b':' encoded) malformed_spec
    let (name, version) = name_and_version rest (rsplit_once b'@' rest)
    parse eco name version
