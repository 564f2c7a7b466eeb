-- ===== src/Relay/Listing.antt =====
-- ghostbro-server/src/relay.rs: list. The rows are sorted as strings, which is by their bytes.
use ghostbro.Base.{
  ℕ, Option, none, some, List, [], ◌∷◌, ◌++◌, Bool, true, false, ◌&&◌, ◌||◌, if◌then◌else◌, ltb,
  leb, nat_beq,
}
use ghostbro.Base.Dict.{Dict}
use ghostbro.Relay.{External}
use ghostbro.Relay.Wire.{status_ok, relay_bytes_response}
use ghostbro.Relay.Store.{
  JobKind, web_fetch, git_mirror, package_fetch, JobStatus, queued, running, complete, failed,
  RelayJobMetadata, ClientDir, or_none,
}

abbrev kind_name : JobKind → List ℕ
kind_name web_fetch = b'w' ∷ b'e' ∷ b'b' ∷ b'_' ∷ b'f' ∷ b'e' ∷ b't' ∷ b'c' ∷ b'h' ∷ []
kind_name git_mirror = b'g' ∷ b'i' ∷ b't' ∷ b'_' ∷ b'm' ∷ b'i' ∷ b'r' ∷ b'r' ∷ b'o' ∷ b'r' ∷ []
kind_name package_fetch = b'p' ∷ b'a' ∷ b'c' ∷ b'k' ∷ b'a' ∷ b'g' ∷ b'e' ∷ []

abbrev status_name : JobStatus → List ℕ
status_name queued = b'q' ∷ b'u' ∷ b'e' ∷ b'u' ∷ b'e' ∷ b'd' ∷ []
status_name running = b'r' ∷ b'u' ∷ b'n' ∷ b'n' ∷ b'i' ∷ b'n' ∷ b'g' ∷ []
status_name complete = b'c' ∷ b'o' ∷ b'm' ∷ b'p' ∷ b'l' ∷ b'e' ∷ b't' ∷ b'e' ∷ []
status_name failed = b'f' ∷ b'a' ∷ b'i' ∷ b'l' ∷ b'e' ∷ b'd' ∷ []

abbrev is_some : Option ℕ → ℕ
is_some none = 0
is_some (some n) = 1

-- Strings compare by their bytes, a prefix first.
unfoldable pub precedes : List ℕ → List ℕ → Bool
precedes [] ys = true
precedes (a ∷ xs) [] = false
precedes (a ∷ xs) (b ∷ ys) = ltb a b || (nat_beq a b && precedes xs ys)

unfoldable pub insert_row : List ℕ → List (List ℕ) → List (List ℕ)
insert_row row [] = row ∷ []
insert_row row (first ∷ rows) =
    let rest = insert_row row rows in
    if precedes row first then row ∷ first ∷ rows else first ∷ rest

unfoldable pub join : ℕ → List (List ℕ) → List ℕ
join mark [] = []
join mark (row ∷ []) = row
join mark (row ∷ next ∷ rows) = row ++ (mark ∷ join mark (next ∷ rows))

module _ (x : External) where
  abbrev row_of : RelayJobMetadata → List ℕ
  row_of metadata = join 9 (
      metadata.job_id
      ∷ kind_name metadata.kind
      ∷ status_name metadata.status
      ∷ x.decimal (or_none metadata.http_status)
      ∷ x.decimal metadata.body_len
      ∷ x.decimal (is_some metadata.normalized_len)
      ∷ metadata.source
      ∷ [])

  unfoldable pub rows : ℕ → Dict (List ℕ) RelayJobMetadata → List (List ℕ)
  rows now [] = []
  rows now ((id, metadata) ∷ jobs) =
      let rest = rows now jobs in
      if leb metadata.expires_at_ms now then rest else insert_row (row_of metadata) rest

  unfoldable pub list_jobs : ℕ → ClientDir → List ℕ
  list_jobs now dir = relay_bytes_response status_ok (join 10 (rows now dir.jobs))
