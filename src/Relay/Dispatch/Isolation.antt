-- ===== src/Relay/Dispatch/Isolation.antt =====
-- ghostbro-server/src/relay.rs: a request touches the files of its own client only.
use ghostbro.Base.{
  ℕ, ◌≡◌, ◌≢◌, refl, sym, ap, ◌∙◌, Bool, true, false, List, length, All, bytes_eq, bytes_beq,
  bytes_beq_iff, Bool-cases, Option-cases, inl, inr, leb, if◌then◌else◌,
}
use ghostbro.Base.Bytes.{IsByte}
use ghostbro.Base.Dict.{lookup, lookup-insert}
use mathlib.Core.Option.{some-injective}
use ghostbro.Keys.{key_id_hex, key_id_from_hex}
use ghostbro.Keys.Hex.{key_id_from_hex-hex}
use ghostbro.Relay.{External, RelayConfig}
use ghostbro.Relay.Store.{
  Relay, ClientDir, JobKind, client_usage, client_dir, put_dir, without_job, enqueue, delete_job,
  validate_job_id, or_empty,
}
use ghostbro.Base.Result.{ok}
use ghostbro.Relay.Store.Files.{delete_job-own}
use ghostbro.Relay.Dispatch.{dispatch_for}
use ghostbro.Relay.Dispatch.Outcomes.{respond-cases}
use ghostbro.Relay.Dispatch.Secrecy.{respond-same}

-- A directory that has been written leaves the others.
put_dir-other :
    (client other : List ℕ) (dir : ClientDir) (r : Relay)
    → other ≢ client
    → lookup other (put_dir client dir r).spool ≡ lookup other r.spool
put_dir-other client other dir r ne = elim (Bool-cases (bytes_beq client other)) [
  | inl same ↦ absurd (ne (sym ((bytes_beq_iff client other).0 same)))
  | inr differ ↦ lookup-insert client other dir r.spool ∙ (rw differ refl)
]

module _ (x : External) (config : RelayConfig) (key_id client : List ℕ) (now : ℕ) (r : Relay) where
  abbrev Keeps : List ℕ → List ℕ × Relay → Type 0
  Keeps other out = lookup other out.1.spool ≡ lookup other r.spool

  if-Keeps :
      (other : List ℕ) (b : Bool) (one two : List ℕ × Relay)
      → Keeps other one
      → Keeps other two
      → Keeps other (if b then one else two)
  if-Keeps other true one two h g = h
  if-Keeps other false one two h g = g

  enqueue-Keeps :
      (other : List ℕ) (kind : JobKind) (source : List ℕ) (normalize : Bool)
      → other ≢ client
      → Keeps other (enqueue x config key_id client kind source normalize now r)
  unfolding enqueue
  enqueue-Keeps other kind source normalize ne =
      if-Keeps other (leb config.max_jobs_per_client (client_usage now (client_dir client r)).0) _ _
        refl
        (if-Keeps other (leb config.max_bytes_per_client (client_usage now (client_dir client r)).1)
          _ _ refl (put_dir-other client other _ r ne))

  delete_job-Keeps :
      (other job_id : List ℕ)
      → validate_job_id job_id ≡ ok tt
      → other ≢ client
      → Keeps other (delete_job x config client job_id r)
  delete_job-Keeps other job_id valid ne =
      elim (Option-cases (lookup job_id (client_dir client r).jobs)) [
        | inl missing ↦ simp (delete_job-own x config client job_id valid r, missing)
        | inr (metadata, found) ↦
            simp (delete_job-own x config client job_id valid r, found)
              (put_dir-other client other (without_job job_id (client_dir client r)) r ne)
      ]

-- Two key ids of eight bytes have different directories.
key_id_hex-ne :
    (k j : List ℕ)
    → length k ≡ 8
    → length j ≡ 8
    → All IsByte k
    → All IsByte j
    → j ≢ k
    → key_id_hex j ≢ key_id_hex k
key_id_hex-ne k j nk nj hk hj ne same = ne (
    some-injective j k
      (sym (key_id_from_hex-hex j nj hj) ∙ ap key_id_from_hex same ∙ key_id_from_hex-hex k nk hk))

-- A request leaves the directory of every other client as it was.
dispatch_for-leaves :
    (x : External) (config : RelayConfig) (key_id other : List ℕ) (now : ℕ) (request : List ℕ)
    (r : Relay)
    → key_id_hex other ≢ key_id_hex key_id
    → lookup (key_id_hex other) (dispatch_for x config key_id now request r).1.spool
      ≡ lookup (key_id_hex other) r.spool
unfolding dispatch_for
dispatch_for-leaves x config key_id other now request r apart =
    let client : List ℕ = key_id_hex key_id in
    respond-cases x config key_id client now r
      (Keeps x config key_id client now r (key_id_hex other))
      (λ kind source normalize.
        enqueue-Keeps x config key_id client now r (key_id_hex other) kind source normalize apart)
      (λ job_id valid.
        delete_job-Keeps x config key_id client now r (key_id_hex other) job_id valid apart)
      (λ response. refl) request

-- Whatever bytes a client sends, its request leaves the directory of every other client as it was,
-- and any request of another client is answered, at any time, as without it: both key ids are of
-- eight bytes.
pub dispatch_for-isolated :
    (x : External) (config : RelayConfig) (key_id other : List ℕ) (now later : ℕ)
    (request answered : List ℕ) (r : Relay)
    → length key_id ≡ 8
    → length other ≡ 8
    → All IsByte key_id
    → All IsByte other
    → other ≢ key_id
    → let after : Relay = (dispatch_for x config key_id now request r).1 in
      (lookup (key_id_hex other) after.spool ≡ lookup (key_id_hex other) r.spool)
      × ((dispatch_for x config other later answered after).0
          ≡ (dispatch_for x config other later answered r).0)
unfolding dispatch_for
dispatch_for-isolated x config key_id other now later request answered r nk nj hk ho ne =
    let apart = key_id_hex-ne key_id other nk nj hk ho ne in
    let left = dispatch_for-leaves x config key_id other now request r apart in
    let after : Relay = (dispatch_for x config key_id now request r).1 in
    (left, respond-same x config other (key_id_hex other) later after r (ap or_empty left) answered)
