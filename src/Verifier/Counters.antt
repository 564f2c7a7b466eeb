-- ===== src/Verifier/Counters.antt =====
-- ghostbro-server/src/spa.rs: the replay counters over any history of payloads and reloads.
use ghostbro.Base.{
  ℕ, ◌≤◌, ◌<◌, ◌≡◌, refl, ◌∙◌, ◌⊎◌, inl, inr, List, [], ◌∷◌, ◌++◌, bytes_beq, bytes_beq_iff,
  bytes_eq, arith, All, All-append, Bool-cases, if◌then◌else◌,
}
use ghostbro.Base.Dict.{lookup-insert}
use ghostbro.Base.Result.{Result, ok, err, ◌>>◌, Result-cases}
use native.Mathlib.Nat.{le_refl, le_trans, le_of_lt, lt_of_le_of_lt}
use ghostbro.Crypto.{Crypto}
use ghostbro.Disk.{Disk, FilePath, Faults, Toml}
use ghostbro.Keys.{AuthorizedClient}
use ghostbro.Packet.{Ipv4Addr, KeyId, SpaPacket, SpaError, open_packet}
use ghostbro.Verifier.{
  SpaVerifier, SpaAccept, SpaVerifyError, Event, arrives, reloads, highest_counter, authorize,
  accepted, advance, verify, step, run, reload_clients, accept_of,
}
use ghostbro.Verifier.Authorize.{Authorized, authorize_iff}

-- Writing one counter.
highest_counter-advance :
    (v : SpaVerifier) (p : SpaPacket) (k : KeyId)
    → highest_counter (advance v p) k
      ≡ (if bytes_beq p.key_id k then p.counter else highest_counter v k)
unfolding advance
highest_counter-advance v p k =
    ground (arith, lookup-insert p.key_id k p.counter v.highest_counters)

after_save :
    (saved : Result SpaVerifyError (Unit {0})) (x a : SpaAccept) → (saved >> ok x) ≡ ok a → a ≡ x
after_save (ok _) x a e = cc
after_save (err _) x a e = cc

-- No counter falls from the first verifier to the second, and both open with one private key.
pub record Later (v w : SpaVerifier) : Type 0 where
  pub counters : (k : KeyId) → highest_counter v k ≤ highest_counter w k
  pub same_key : w.server_static_private ≡ v.server_static_private

Later-refl : (v : SpaVerifier) → Later v v
Later-refl v = record { counters = λ k. le_refl (highest_counter v k); same_key = refl }

Later-trans : {u v w : SpaVerifier} → Later u v → Later v w → Later u w
Later-trans p q = record {
  counters = λ k. le_trans (p.counters k) (q.counters k);
  same_key = q.same_key ∙ p.same_key;
}

pub Later-advance :
    (v : SpaVerifier) (p : SpaPacket)
    → highest_counter v p.key_id < p.counter
    → Later v (advance v p)
Later-advance v p h = record {
  counters = λ k. rw (highest_counter-advance v p k) (elim (Bool-cases (bytes_beq p.key_id k)) [
    | inl same ↦
        let e : p.key_id ≡ k = (bytes_beq_iff p.key_id k).0 same in rw (same, ← e) (le_of_lt h)
    | inr other ↦ rw other (le_refl (highest_counter v k))
  ]);
  same_key = unfold advance in refl;
}

-- The accepts that a verifier may still make are all above its counters.
abbrev Above : SpaVerifier → List SpaAccept → Type 0
Above v = All (λ (b : SpaAccept). highest_counter v b.key_id < b.counter)

Above-Later : {v w : SpaVerifier} (xs : List SpaAccept) → Later v w → Above w xs → Above v xs
Above-Later [] l h = tt
Above-Later (a ∷ xs) l h = (lt_of_le_of_lt (l.counters a.key_id) h.0, Above-Later xs l h.1)

-- Of two accepts of one client the later has the larger counter.
abbrev pub Rising : List SpaAccept → Type 0
Rising [] = Unit {0}
Rising (a ∷ xs) =
    All (λ (b : SpaAccept). b.key_id ≡ a.key_id → a.counter < b.counter) xs × Rising xs

pub highest_counter-advance_self :
    (v : SpaVerifier) (p : SpaPacket) → highest_counter (advance v p) p.key_id ≡ p.counter
highest_counter-advance_self v p =
    rw (highest_counter-advance v p p.key_id, (bytes_beq_iff p.key_id p.key_id).1 refl)

module _ (toml : Toml) (temp : FilePath → FilePath) (c : Crypto) where
  module _ (f : Faults) (v : SpaVerifier) (disk : Disk) (payload : List ℕ) (source : Ipv4Addr)
      (now : ℕ) where
    -- The verifier afterwards: as it was, or with the counter of an authorized packet recorded.
    pub verify_state :
        let v' = (verify toml temp c f v disk payload source now).1 in
        (v' ≡ v)
        ⊎ ((p : SpaPacket) × (client : AuthorizedClient) × Authorized c v payload source now p
              client
            × (v' ≡ advance v p))
    unfolding verify
    verify_state = elim (Result-cases (authorize c v payload source now)) [
      | inl (e, refused) ↦ inl (rw (refused, verify))
      | inr ((p, client), let_through) ↦ inr (
        p,
        client,
        (authorize_iff c v payload source now p client).0 let_through,
        rw (let_through, verify),
      )
    ]

    -- An authorized packet leaves its counter in memory, also if the file cannot be written.
    pub verify_records :
        (p : SpaPacket) (client : AuthorizedClient)
        → Authorized c v payload source now p client
        → (verify toml temp c f v disk payload source now).1 ≡ advance v p
    unfolding verify
    verify_records p client allowed =
        let let_through = (authorize_iff c v payload source now p client).1 allowed in
        rw (let_through, verify)

    -- What is accepted was authorized, and its counter is recorded by then.
    pub verify_accepts :
        (a : SpaAccept)
        → (verify toml temp c f v disk payload source now).0 ≡ ok a
        → (p : SpaPacket) × (client : AuthorizedClient) × Authorized c v payload source now p client
          × (a ≡ accepted p client)
          × ((verify toml temp c f v disk payload source now).1 ≡ advance v p)
    unfolding verify
    verify_accepts a e = elim (Result-cases (authorize c v payload source now)) [
      | inl (x, refused) ↦ absurd (cc (rw (refused, verify) at e))
      | inr ((p, client), let_through) ↦ (
        p,
        client,
        (authorize_iff c v payload source now p client).0 let_through,
        after_save _ _ _ (rw (let_through, verify) at e),
        rw (let_through, verify),
      )
    ]

    verify-Later : Later v (verify toml temp c f v disk payload source now).1
    verify-Later = elim verify_state [
      | inl same ↦ rw same (Later-refl v)
      | inr (p, client, allowed, recorded) ↦ rw recorded (Later-advance v p allowed.new_counter)
    ]

  step-Later : (v : SpaVerifier) (disk : Disk) (e : Event) → Later v (step toml temp c v disk e).1
  unfolding step
  step-Later v disk (arrives f payload source now) = verify-Later f v disk payload source now
  step-Later v disk (reloads clients) =
      unfold reload_clients in
      record { counters = λ k. le_refl (highest_counter v k); same_key = refl }

  pub run-Later :
      (v : SpaVerifier) (disk : Disk) (es : List Event) → Later v (run toml temp c v disk es).1
  unfolding run
  run-Later v disk [] = Later-refl v
  run-Later v disk (e ∷ es) =
      let s = step toml temp c v disk e in Later-trans (step-Later v disk e) (run-Later s.1 s.2 es)

  accept_Above :
      (v w : SpaVerifier) (r : Result SpaVerifyError SpaAccept)
      → ((a : SpaAccept) → r ≡ ok a → highest_counter v a.key_id < a.counter)
      → Above v (accept_of r)
  accept_Above v w (ok a) h = (h a refl, tt)
  accept_Above v w (err e) h = tt

  -- What `verify` accepts is above the counter before and is the counter after.
  verify_counter :
      (f : Faults) (v : SpaVerifier) (disk : Disk) (payload : List ℕ) (source : Ipv4Addr) (now : ℕ)
      (a : SpaAccept)
      → (verify toml temp c f v disk payload source now).0 ≡ ok a
      → (highest_counter v a.key_id < a.counter)
        × (highest_counter (verify toml temp c f v disk payload source now).1 a.key_id ≡ a.counter)
  verify_counter f v disk payload source now a e =
      let (p, client, allowed, same, recorded) = verify_accepts f v disk payload source now a e in
      rw (same, recorded)
        (unfold accepted in (allowed.new_counter, highest_counter-advance_self v p))

  step-Above : (v : SpaVerifier) (disk : Disk) (e : Event) → Above v (step toml temp c v disk e).0
  unfolding step
  step-Above v disk (arrives f payload source now) =
      accept_Above v v _ (λ a e. (verify_counter f v disk payload source now a e).0)
  step-Above v disk (reloads clients) = tt

  run-Above :
      (v : SpaVerifier) (disk : Disk) (es : List Event) → Above v (run toml temp c v disk es).0
  unfolding run
  run-Above v disk [] = tt
  run-Above v disk (e ∷ es) =
      let s = step toml temp c v disk e in
      All-append (λ (b : SpaAccept). highest_counter v b.key_id < b.counter) s.0
        (run toml temp c s.1 s.2 es).0 (step-Above v disk e)
        (Above-Later (run toml temp c s.1 s.2 es).0 (step-Later v disk e) (run-Above s.1 s.2 es))

  Above-accept :
      (w : SpaVerifier) (a : SpaAccept) (xs : List SpaAccept)
      → highest_counter w a.key_id ≡ a.counter
      → Above w xs
      → All (λ (b : SpaAccept). b.key_id ≡ a.key_id → a.counter < b.counter) xs
  Above-accept w a [] h above = tt
  Above-accept w a (b ∷ xs) h above =
      (λ same. rw (← h, ← same) above.0, Above-accept w a xs h above.1)

  accept_Rising :
      (w : SpaVerifier) (r : Result SpaVerifyError SpaAccept) (xs : List SpaAccept)
      → ((a : SpaAccept) → r ≡ ok a → highest_counter w a.key_id ≡ a.counter)
      → Above w xs
      → Rising xs
      → Rising (accept_of r ++ xs)
  accept_Rising w (ok a) xs h above rising = (Above-accept w a xs (h a refl) above, rising)
  accept_Rising w (err e) xs h above rising = rising

  -- Over any history the accepts of each client have strictly rising counters: no counter is
  -- accepted twice, and none out of order.
  pub run-Rising :
      (v : SpaVerifier) (disk : Disk) (es : List Event) → Rising (run toml temp c v disk es).0
  unfolding run step
  run-Rising v disk [] = tt
  run-Rising v disk (arrives f payload source now ∷ es) =
      let s = verify toml temp c f v disk payload source now in
      accept_Rising s.1 s.0 (run toml temp c s.1 s.2 es).0
        (λ a e. (verify_counter f v disk payload source now a e).1) (run-Above s.1 s.2 es)
        (run-Rising s.1 s.2 es)
  run-Rising v disk (reloads clients ∷ es) = run-Rising _ disk es

  reopened : {r : Result SpaError SpaPacket} (q p : SpaPacket) → r ≡ ok q → r ≡ ok p → q ≡ p
  reopened q p e h = cc

  -- A verifier whose counter has reached that of a packet never accepts it from then on.
  pub refuses_replay :
      (g : Faults) (w : SpaVerifier) (disk : Disk) (payload : List ℕ) (source : Ipv4Addr) (now : ℕ)
      (b : SpaAccept) (p : SpaPacket) (es : List Event)
      → open_packet c payload w.server_static_private ≡ ok p
      → highest_counter w p.key_id ≡ p.counter
      → let later = run toml temp c w disk es in
        ¬ ((verify toml temp c g later.1 later.2 payload source now).0 ≡ ok b)
  refuses_replay g w disk payload source now b p es opens reached second =
      let later = run toml temp c w disk es in
      let (q, client, allowed, _, _) =
        verify_accepts g later.1 later.2 payload source now b second in
      let grown = run-Later w disk es in
      let same : q ≡ p = reopened q p allowed.opened (rw grown.same_key opens) in
      let above : highest_counter later.1 p.key_id < p.counter = rw (← same) allowed.new_counter in
      omega (arith, grown.counters p.key_id, reached, above)

  -- A payload that was accepted once is never accepted again, whatever happens in between: other
  -- payloads, reloads of the client list, failures of the file system.
  pub no_replay :
      (f g : Faults) (v : SpaVerifier) (disk : Disk) (payload : List ℕ) (source source' : Ipv4Addr)
      (now now' : ℕ) (a b : SpaAccept) (es : List Event)
      → (verify toml temp c f v disk payload source now).0 ≡ ok a
      → let after = verify toml temp c f v disk payload source now in
        let later = run toml temp c after.1 after.2 es in
        ¬ ((verify toml temp c g later.1 later.2 payload source' now').0 ≡ ok b)
  no_replay f g v disk payload source source' now now' a b es first second =
      let after = verify toml temp c f v disk payload source now in
      let (p, client, allowed, _, recorded) = verify_accepts f v disk payload source now a first in
      let grown = verify-Later f v disk payload source now in
      refuses_replay g after.1 after.2 payload source' now' b p es
        (rw grown.same_key allowed.opened) (rw recorded (highest_counter-advance_self v p)) second
