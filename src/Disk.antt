-- ===== src/Disk.antt =====
-- The file system and the TOML crate as ghostbro-server/src/spa.rs uses them.
use ghostbro.Base.{ℕ, ◌^◌, ◌≤◌, ◌≡◌, Bool, List, Option, none, some, bytes_eq}
use ghostbro.Base.Dict.{Dict, lookup}

abbrev pub FilePath : Type 0
FilePath = List ℕ

-- Path to contents.
abbrev pub Disk : Type 0
Disk = Dict FilePath (List ℕ)

-- Which calls of the operating system fail on this run; `partial` is what a failed write leaves.
pub record Faults : Type 0 where
  pub read_fails : Bool
  pub mkdir_fails : Bool
  pub create_fails : Bool
  pub write_fails : Bool
  pub sync_fails : Bool
  pub rename_fails : Bool
  pub partial : List ℕ

-- A map from text to u64, as `toml` writes and reads it.
pub record Toml : Type 0 where
  pub to_string_pretty : Dict (List ℕ) ℕ → Option (List ℕ)
  pub from_str : List ℕ → Option (Dict (List ℕ) ℕ)

pub record TomlLaws (t : Toml) : Type 0 where
  -- What was written is read back as a map with the same entries.
  pub from_str-to_string :
      (m : Dict (List ℕ) ℕ) (text : List ℕ)
      → t.to_string_pretty m ≡ some text
      → (n : Dict (List ℕ) ℕ) × (t.from_str text ≡ some n)
        × ((s : List ℕ) → lookup s n ≡ lookup s m)
  -- TOML's integers are 64-bit and signed: a larger one is an error of the serializer.
  pub to_string-large :
      (m : Dict (List ℕ) ℕ) (s : List ℕ) (n : ℕ)
      → lookup s m ≡ some n
      → 2 ^ 63 ≤ n
      → t.to_string_pretty m ≡ none
