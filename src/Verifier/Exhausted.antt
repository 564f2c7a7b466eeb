-- ===== src/Verifier/Exhausted.antt =====
-- ghostbro-server/src/spa.rs: a counter that the counter file cannot hold. TOML integers end below
-- 2 ^ 63, SPA counters at 2 ^ 64, and the counter is recorded in memory before the file is written.
use ghostbro.Base.{
  ℕ, ◌≡◌, ◌≤◌, ◌^◌, refl, List, [], ◌∷◌, Option, some, none, arith, inl, inr, bytes_eq,
}
use ghostbro.Base.Dict.{lookup}
use ghostbro.Base.Result.{ok, err}
use ghostbro.Crypto.{Crypto, CryptoLaws}
use ghostbro.Disk.{Disk, FilePath, Faults, Toml, TomlLaws}
use ghostbro.Keys.{AuthorizedClient, key_id_hex}
use ghostbro.Packet.{KeyId, Ipv4Addr, SpaPacket}
use ghostbro.Packet.Canonical.{open-key_id}
use ghostbro.Verifier.{
  SpaVerifier, SpaAccept, serialize_failed, encode_counters, save_counter_state, verify, advance,
  highest_counter, unwrap_or_default, Event, arrives, reloads, step, run, reload_clients,
}
use ghostbro.Verifier.Authorize.{Authorized}
use ghostbro.Verifier.Counters.{
  verify_state, Later-advance, verify_records, highest_counter-advance_self,
}
use ghostbro.Verifier.Table.{IsKeyId, IsTable, insert-IsTable, lookup-encode}
use ghostbro.Verifier.Restart.{verify_saves}
use native.Mathlib.Nat.{le_trans}

-- A verifier with a counter file and, in memory, a counter that no file can hold.
pub record IsExhausted (v : SpaVerifier) : Type 0 where
  pub path : FilePath
  pub at_path : v.counter_state_path ≡ some path
  pub table : IsTable v.highest_counters
  pub key : KeyId
  pub id : IsKeyId key
  pub large : 2 ^ 63 ≤ highest_counter v key

found : (o : Option ℕ) → 2 ^ 63 ≤ unwrap_or_default o → (n : ℕ) × (o ≡ some n) × (2 ^ 63 ≤ n)
found none h = absurd (omega arith)
found (some n) h = (n, refl, h)

advance-IsTable :
    (v : SpaVerifier) (p : SpaPacket)
    → IsKeyId p.key_id
    → IsTable v.highest_counters
    → IsTable (advance v p).highest_counters
unfolding advance
advance-IsTable v p id table = insert-IsTable p.key_id p.counter v.highest_counters id table

advance-path :
    (v : SpaVerifier) (p : SpaPacket) → (advance v p).counter_state_path ≡ v.counter_state_path
unfolding advance
advance-path v p = refl

module _ (toml : Toml) (toml_laws : TomlLaws toml) (temp : FilePath → FilePath) where
  save_fails :
      (f : Faults) (v : SpaVerifier) (path : FilePath) (disk : Disk)
      → IsExhausted v
      → (save_counter_state toml temp f path v.highest_counters disk).0 ≡ err serialize_failed
  unfolding save_counter_state
  save_fails f v path disk x =
      let (n, held, large) = found (lookup x.key v.highest_counters) x.large in
      let encoded = lookup-encode x.key v.highest_counters x.id x.table in
      let refused =
        toml_laws.to_string-large (encode_counters v.highest_counters) (key_id_hex x.key) n
          (rw encoded held) large in
      rw (refused, save_counter_state)

  module _ (c : Crypto) (laws : CryptoLaws c) where
    advance-IsExhausted :
        (v : SpaVerifier) (payload : List ℕ) (source : Ipv4Addr) (now : ℕ) (p : SpaPacket)
        (client : AuthorizedClient)
        → Authorized c v payload source now p client
        → IsExhausted v
        → IsExhausted (advance v p)
    advance-IsExhausted v payload source now p client allowed x = record {
      path = x.path;
      at_path = rw (advance-path v p) x.at_path;
      table =
          advance-IsTable v p (open-key_id c laws payload v.server_static_private p allowed.opened)
            x.table;
      key = x.key;
      id = x.id;
      large = le_trans x.large ((Later-advance v p allowed.new_counter).counters x.key);
    }

    step-IsExhausted :
        (v : SpaVerifier) (disk : Disk) (e : Event)
        → IsExhausted v
        → IsExhausted (step toml temp c v disk e).1
    unfolding step
    step-IsExhausted v disk (arrives f payload source now) x =
        elim (verify_state toml temp c f v disk payload source now) [
          | inl same ↦ rw same x
          | inr (p, client, allowed, recorded) ↦
              rw recorded (advance-IsExhausted v payload source now p client allowed x)
        ]
    step-IsExhausted v disk (reloads clients) x =
        unfold reload_clients in
        record {
          path = x.path;
          at_path = x.at_path;
          table = x.table;
          key = x.key;
          id = x.id;
          large = x.large;
        }

    run-IsExhausted :
        (v : SpaVerifier) (disk : Disk) (es : List Event)
        → IsExhausted v
        → IsExhausted (run toml temp c v disk es).1
    unfolding run
    run-IsExhausted v disk [] x = x
    run-IsExhausted v disk (e ∷ es) x =
        let s = step toml temp c v disk e in
        run-IsExhausted s.1 s.2 es (step-IsExhausted v disk e x)

    exhausted-refuses :
        (f : Faults) (v : SpaVerifier) (disk : Disk) (payload : List ℕ) (source : Ipv4Addr)
        (now : ℕ) (a : SpaAccept)
        → IsExhausted v
        → ¬ ((verify toml temp c f v disk payload source now).0 ≡ ok a)
    exhausted-refuses f v disk payload source now a x e =
        let (p, client, (allowed, _, written, _)) =
          verify_saves toml temp c f v disk payload source now a x.path x.at_path e in
        cc (
          save_fails f (advance v p) x.path disk
              (advance-IsExhausted v payload source now p client allowed x),
          written,
        )

    -- Once one client has sent an authorized packet with a counter of 2 ^ 63 or more to a server
    -- with a counter file, whose counters are under key ids of eight bytes, the server accepts no
    -- packet of any client, after any further history.
    pub large_counter_locks_out :
        (f g : Faults) (v : SpaVerifier) (disk : Disk) (payload payload' : List ℕ)
        (source source' : Ipv4Addr) (now now' : ℕ) (p : SpaPacket) (client : AuthorizedClient)
        (path : FilePath) (es : List Event) (b : SpaAccept)
        → v.counter_state_path ≡ some path
        → IsTable v.highest_counters
        → Authorized c v payload source now p client
        → 2 ^ 63 ≤ p.counter
        → let out = verify toml temp c f v disk payload source now in
          let later = run toml temp c out.1 out.2 es in
          ¬ ((verify toml temp c g later.1 later.2 payload' source' now').0 ≡ ok b)
    large_counter_locks_out f g v disk payload payload' source source' now now' p client path es b
          at_path table allowed large second =
        let out = verify toml temp c f v disk payload source now in
        let later = run toml temp c out.1 out.2 es in
        let id = open-key_id c laws payload v.server_static_private p allowed.opened in
        let x : IsExhausted (advance v p) = record {
          path = path;
          at_path = rw (advance-path v p) at_path;
          table = advance-IsTable v p id table;
          key = p.key_id;
          id = id;
          large = rw (highest_counter-advance_self v p) large;
        } in
        let recorded = verify_records toml temp c f v disk payload source now p client allowed in
        exhausted-refuses g later.1 later.2 payload' source' now' b
          (run-IsExhausted out.1 out.2 es (rw recorded x)) second
