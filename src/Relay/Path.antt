-- ===== src/Relay/Path.antt =====
-- ghostbro-server/src/relay.rs: the paths of a job's files. `Path::join` and the file system's reading of
-- `..` are those that std::path and POSIX document, on a spool without symbolic links. A path is the
-- list of its components from the last to the first, so that the head is the file and the tail its directory.
pub mod JobId
use ghostbro.Base.{
  ℕ, Option, none, some, Bool, true, false, List, [], ◌∷◌, ◌++◌, ◌||◌, ◌&&◌, if◌then◌else◌, nat_beq,
  bytes_beq,
}

abbrev pub FilePath : Type 0
FilePath = List (List ℕ)

abbrev pub paths_beq : FilePath → FilePath → Bool
paths_beq [] [] = true
paths_beq [] (d ∷ q) = false
paths_beq (c ∷ p) [] = false
paths_beq (c ∷ p) (d ∷ q) = bytes_beq c d && paths_beq p q

abbrev pub cons_head : ℕ → List (List ℕ) → List (List ℕ)
cons_head b [] = (b ∷ []) ∷ []
cons_head b (c ∷ cs) = (b ∷ c) ∷ cs

-- What stands between the slashes.
unfoldable pub components : List ℕ → List (List ℕ)
components [] = [] ∷ []
components (b ∷ bs) =
    let rest = components bs in if nat_beq b b'/' then [] ∷ rest else cons_head b rest

abbrev pub parent : FilePath → FilePath
parent [] = []
parent (c ∷ here) = here

-- One component: `.` and an empty one stay, `..` goes up.
abbrev pub enter : FilePath → List ℕ → FilePath
enter here c =
    if bytes_beq c [] || bytes_beq c (b'.' ∷ [])
    then here
    else if bytes_beq c (b'.' ∷ b'.' ∷ [])
    then parent here
    else c ∷ here

unfoldable pub walk : FilePath → List (List ℕ) → FilePath
walk here [] = here
walk here (c ∷ cs) = walk (enter here c) cs

-- `Path::join`, as the file system reads the result: an absolute name replaces the path.
unfoldable pub join : FilePath → List ℕ → FilePath
join here [] = here
join here (b ∷ bs) = walk (if nat_beq b b'/' then [] else here) (components (b ∷ bs))

abbrev pub jobs_name : List ℕ
jobs_name = b'j' ∷ b'o' ∷ b'b' ∷ b's' ∷ []

abbrev pub objects_name : List ℕ
objects_name = b'o' ∷ b'b' ∷ b'j' ∷ b'e' ∷ b'c' ∷ b't' ∷ b's' ∷ []

abbrev pub toml_suffix : List ℕ
toml_suffix = b'.' ∷ b't' ∷ b'o' ∷ b'm' ∷ b'l' ∷ []

abbrev pub body_suffix : List ℕ
body_suffix = b'.' ∷ b'b' ∷ b'o' ∷ b'd' ∷ b'y' ∷ []

abbrev pub md_suffix : List ℕ
md_suffix = b'.' ∷ b'm' ∷ b'd' ∷ []

-- The paths of a client's job; a client's name is hexadecimal digits, and so one component.
unfoldable pub metadata_path : FilePath → List ℕ → FilePath
metadata_path client_path job_id = join (jobs_name ∷ client_path) (job_id ++ toml_suffix)

unfoldable pub primary_object_path : FilePath → List ℕ → FilePath
primary_object_path client_path job_id = join (objects_name ∷ client_path) (job_id ++ body_suffix)

unfoldable pub normalized_object_path : FilePath → List ℕ → FilePath
normalized_object_path client_path job_id = join (objects_name ∷ client_path) (job_id ++ md_suffix)

-- The files of the spool, by the client's name and the job's id.
pub data Place : Type 0 where
  metadata_of body_of markdown_of : List ℕ → List ℕ → Place
  elsewhere : Place

abbrev pub push_front : ℕ → Option (List ℕ) → Option (List ℕ)
push_front b none = none
push_front b (some bs) = some (b ∷ bs)

-- A name without its suffix.
unfoldable pub strip_suffix : List ℕ → List ℕ → Option (List ℕ)
strip_suffix suffix [] = if bytes_beq [] suffix then some [] else none
strip_suffix suffix (b ∷ bs) =
    let rest = strip_suffix suffix bs in
    if bytes_beq (b ∷ bs) suffix then some [] else push_front b rest

-- A file of a client's directory.
unfoldable pub place_in : List ℕ → List ℕ → List ℕ → Place
place_in client dir name =
    if bytes_beq dir jobs_name
    then elim (strip_suffix toml_suffix name) [ none ↦ elsewhere | some id ↦ metadata_of client id ]
    else if bytes_beq dir objects_name
    then elim (strip_suffix body_suffix name) [
      | some id ↦ body_of client id
      | none ↦ elim (strip_suffix md_suffix name) [
        | none ↦ elsewhere
        | some id ↦ markdown_of client id
      ]
    ]
    else elsewhere

-- Which file of the spool a path reaches, if one.
unfoldable pub place : FilePath → FilePath → Place
place spool_dir (name ∷ dir ∷ client ∷ above) =
    if paths_beq above spool_dir then place_in client dir name else elsewhere
place spool_dir path = elsewhere
