-- ===== src/Verifier/Restart.antt =====
-- ghostbro-server/src/spa.rs: the counter file. Saving is atomic, and a restart from the file keeps
-- every counter that was accepted.
use ghostbro.Base.{
  ℕ, ◌≡◌, ◌≢◌, refl, ap, sym, List, [], Bool, true, false, some, bytes_beq, bytes_beq_iff, bytes_eq,
  if◌then◌else◌, Bool-cases, Option-cases, ◌⊎◌, inl, inr,
}
use ghostbro.Base.Dict.{
  Dict, lookup, insert, remove, lookup-insert, lookup-insert_self, lookup-remove,
}
use ghostbro.Base.Result.{Result, ok, err, ◌>>◌, map_err, Result-cases}
use ghostbro.Crypto.{Crypto, CryptoLaws}
use ghostbro.Disk.{Disk, FilePath, Faults, Toml, TomlLaws}
use ghostbro.Keys.{AuthorizedClient}
use ghostbro.Packet.{KeyId, Ipv4Addr, SpaPacket}
use ghostbro.Verifier.{
  SpaVerifier, SpaAccept, StateError, serialize_failed, create_dir_failed, create_failed,
  write_failed, sync_failed, rename_failed, replace_file, encode_counters, save_counter_state,
  load_counter_state, persist_counters, load, verify, authorize, advance, highest_counter,
  from_counters, persist, Event, run, unwrap_or_default,
}
use ghostbro.Packet.Canonical.{open-key_id}
use ghostbro.Verifier.Authorize.{Authorized, authorize_iff}
use ghostbro.Verifier.Counters.{verify_accepts, refuses_replay, highest_counter-advance_self}
use ghostbro.Verifier.Table.{IsKeyId, IsTable, insert-IsTable, decode-encode}

ne→false : (a b : List ℕ) → a ≢ b → bytes_beq a b ≡ false
ne→false a b h = elim (Bool-cases (bytes_beq a b)) [
  | inl e ↦ absurd (h ((bytes_beq_iff a b).0 e))
  | inr e ↦ e
]

-- A property of both branches is one of the conditional.
either_branch {ℓ κ} :
    {Out : Type ℓ} (Good : Out → Type κ) (test : Bool) {failed done : Out}
    → Good failed
    → Good done
    → Good (if test then failed else done)
either_branch Good true left right = left
either_branch Good false left right = right

module _ (f : Faults) (temp path : FilePath) (text : List ℕ) (disk : Disk)
    (apart : temp ≢ path) where
  -- Nothing but the temporary file differs from the disk before.
  abbrev OnlyTemp : Disk → Type 0
  OnlyTemp disk' = (q : FilePath) → q ≢ temp → lookup q disk' ≡ lookup q disk

  insert-OnlyTemp : (t : List ℕ) (disk' : Disk) → OnlyTemp disk' → OnlyTemp (insert temp t disk')
  insert-OnlyTemp t disk' h q ne =
      rw (lookup-insert temp q t disk', ne→false temp q (λ e. ne (sym e))) (h q ne)

  -- What may come of replacing the file at `path`.
  abbrev Replaced : Result StateError (Unit {0}) × Disk → Type 0
  Replaced r =
      (((e : StateError) × (r.0 ≡ err e) × (lookup path r.1 ≡ lookup path disk))
        ⊎ (r.0 ≡ ok tt) × (lookup path r.1 ≡ some text))
      × ((q : FilePath) → q ≢ path → q ≢ temp → lookup q r.1 ≡ lookup q disk)

  failed-Replaced : (e : StateError) (disk' : Disk) → OnlyTemp disk' → Replaced (err e, disk')
  failed-Replaced e disk' h = (inl (e, refl, h path (λ p. apart (sym p))), λ q hp ht. h q ht)

  renamed-Replaced :
      (disk' : Disk) → OnlyTemp disk' → Replaced (ok tt, insert path text (remove temp disk'))
  renamed-Replaced disk' h = (
    inr (refl, lookup-insert_self path text (remove temp disk')),
    λ q hp ht.
        rw
          (
            lookup-insert path q text (remove temp disk'),
            ne→false path q (λ e. hp (sym e)),
            lookup-remove temp q disk',
            ne→false temp q (λ e. ht (sym e)),
          )
          (h q ht),
  )

  replace_file-Replaced : Replaced (replace_file f temp path text disk)
  unfolding replace_file
  replace_file-Replaced =
      let same : OnlyTemp disk = λ q h. refl in
      let empty = insert-OnlyTemp [] disk same in
      let full = insert-OnlyTemp text disk same in
      either_branch Replaced f.mkdir_fails (failed-Replaced create_dir_failed disk same) (
        either_branch Replaced f.create_fails (failed-Replaced create_failed disk same) (
          either_branch Replaced f.write_fails
            (failed-Replaced write_failed _ (insert-OnlyTemp f.partial _ empty))
            (either_branch Replaced f.sync_fails (failed-Replaced sync_failed _ full) (
              either_branch Replaced f.rename_fails (failed-Replaced rename_failed _ full)
                (renamed-Replaced _ full)))))

module _ (toml : Toml) (temp : FilePath → FilePath) where
  -- Where the temporary file has another name, a save that fails at any step leaves the live file as it
  -- was; one that succeeds puts the whole new table there. No third file changes.
  pub save_atomic :
      (f : Faults) (path : FilePath) (m : Dict KeyId ℕ) (disk : Disk)
      → temp path ≢ path
      → let saved = save_counter_state toml temp f path m disk in
        (((e : StateError) × (saved.0 ≡ err e) × (lookup path saved.1 ≡ lookup path disk))
          ⊎ ((text : List ℕ) × (toml.to_string_pretty (encode_counters m) ≡ some text)
              × (saved.0 ≡ ok tt)
              × (lookup path saved.1 ≡ some text)))
        × ((q : FilePath) → q ≢ path → q ≢ temp path → lookup q saved.1 ≡ lookup q disk)
  unfolding save_counter_state
  save_atomic f path m disk apart =
      elim (Option-cases (toml.to_string_pretty (encode_counters m))) [
        | inl failed ↦
            rw (failed, save_counter_state) (inl (serialize_failed, refl, refl), λ q hq ht. refl)
        | inr (text, printed) ↦
            let (outcome, others) = replace_file-Replaced f (temp path) path text disk apart in
            rw (printed, save_counter_state)
              (
                elim outcome [
                  | inl failure ↦ inl failure
                  | inr (done, live) ↦ inr (text, refl, done, live)
                ],
                others,
              )
      ]

  written_text :
      (f : Faults) (path : FilePath) (m : Dict KeyId ℕ) (disk : Disk)
      → temp path ≢ path
      → (save_counter_state toml temp f path m disk).0 ≡ ok tt
      → (text : List ℕ) × (toml.to_string_pretty (encode_counters m) ≡ some text)
        × (lookup path (save_counter_state toml temp f path m disk).1 ≡ some text)
  written_text f path m disk apart written = elim (save_atomic f path m disk apart).0 [
    | inl (e, failed, _) ↦ absurd (cc (failed, written))
    | inr (text, printed, _, live) ↦ (text, printed, live)
  ]

  module _ (c : Crypto) where
    through_save :
        (r : Result StateError (Unit {0})) (x a : SpaAccept)
        → (map_err persist r >> ok x) ≡ ok a
        → r ≡ ok tt
    through_save (ok _) x a e = refl
    through_save (err _) x a e = absurd (cc e)

    -- An accept of a verifier with a counter file: the file was written with the new counters.
    pub verify_saves :
        (f : Faults) (v : SpaVerifier) (disk : Disk) (payload : List ℕ) (source : Ipv4Addr)
        (now : ℕ) (a : SpaAccept) (path : FilePath)
        → v.counter_state_path ≡ some path
        → (verify toml temp c f v disk payload source now).0 ≡ ok a
        → (p : SpaPacket) × (client : AuthorizedClient) × (let out =
              verify toml temp c f v disk payload source now in
            let saved = save_counter_state toml temp f path (advance v p).highest_counters disk in
            Authorized c v payload source now p client
            × (out.1 ≡ advance v p)
            × (saved.0 ≡ ok tt)
            × (out.2 ≡ saved.1))
    unfolding verify persist_counters advance
    verify_saves f v disk payload source now a path at_path e =
        elim (Result-cases (authorize c v payload source now)) [
          | inl (x, refused) ↦ absurd (cc (rw (refused, verify) at e))
          | inr ((p, client), let_through) ↦ (
            p,
            client,
            (
              (authorize_iff c v payload source now p client).0 let_through,
              rw (let_through, verify),
              through_save _ _ _ (rw (let_through, verify, at_path, persist_counters) at e),
              rw (let_through, verify, at_path, persist_counters),
            ),
          )
        ]

  module _ (c : Crypto) (laws : CryptoLaws c) (toml_laws : TomlLaws toml) where
    -- Loading what a save has written gives the same counter for every key id.
    load-save :
        (g : Faults) (path : FilePath) (m : Dict KeyId ℕ) (text : List ℕ) (disk : Disk)
        → IsTable m
        → toml.to_string_pretty (encode_counters m) ≡ some text
        → lookup path disk ≡ some text
        → g.read_fails ≡ false
        → (allow : Bool)
        → (r : Dict KeyId ℕ) × (load_counter_state toml temp g path allow disk ≡ ok r)
          × ((k : KeyId) → IsKeyId k → lookup k r ≡ lookup k m)
    unfolding load_counter_state
    load-save g path m text disk table printed live reads allow =
        let (n, parsed, same) = toml_laws.from_str-to_string (encode_counters m) text printed in
        let (r, decoded, found) = decode-encode m n table same in
        (r, rw (reads, live, parsed, decoded), found)

    -- After an accept by a verifier with a counter file, whose counters are under key ids of
    -- eight bytes, and whose temporary path is not the live one, a server started from that file,
    -- if it can be read, starts in first-run mode or not, and has the same counter for every key
    -- id of eight bytes.
    pub restart_keeps :
        (f g : Faults) (v : SpaVerifier) (disk : Disk) (payload : List ℕ) (source : Ipv4Addr)
        (now : ℕ) (a : SpaAccept) (path : FilePath) (clients : List AuthorizedClient) (window : ℕ)
        (allow : Bool)
        → v.counter_state_path ≡ some path
        → temp path ≢ path
        → IsTable v.highest_counters
        → g.read_fails ≡ false
        → (verify toml temp c f v disk payload source now).0 ≡ ok a
        → let out = verify toml temp c f v disk payload source now in
          (w : SpaVerifier) × (load toml temp c g clients window path v.server_static_private allow
              out.2
            ≡ ok w)
          × (w.server_static_private ≡ v.server_static_private)
          × ((k : KeyId) → IsKeyId k → highest_counter w k ≡ highest_counter out.1 k)
    unfolding load from_counters
    restart_keeps f g v disk payload source now a path clients window allow at_path apart table
          reads e =
        let (p, client, (allowed, recorded, written, on_disk)) =
          verify_saves c f v disk payload source now a path at_path e in
        let m = (advance v p).highest_counters in
        let id = open-key_id c laws payload v.server_static_private p allowed.opened in
        let table' : IsTable m =
          unfold advance in insert-IsTable p.key_id p.counter v.highest_counters id table in
        let (text, printed, live) = written_text f path m disk apart written in
        let disk' : Disk = (verify toml temp c f v disk payload source now).2 in
        let (r, loaded, found) =
          load-save g path m text disk' table' printed (rw on_disk live) reads allow in
        (
          from_counters c clients window r (some path) v.server_static_private,
          rw loaded,
          refl,
          λ k hk. rw recorded (ap unwrap_or_default (found k hk)),
        )

    -- Under the same conditions: a payload that was accepted is refused by a server that was
    -- started from the counter file, whatever payloads and reloads come in between, from any
    -- source and at any time.
    pub no_replay_after_restart :
        (f g h : Faults) (v : SpaVerifier) (disk disk' : Disk) (payload : List ℕ)
        (source source' : Ipv4Addr) (now now' : ℕ) (a b : SpaAccept) (path : FilePath)
        (clients : List AuthorizedClient) (window : ℕ) (allow : Bool) (w : SpaVerifier)
        (es : List Event)
        → v.counter_state_path ≡ some path
        → temp path ≢ path
        → IsTable v.highest_counters
        → g.read_fails ≡ false
        → (verify toml temp c f v disk payload source now).0 ≡ ok a
        → load toml temp c g clients window path v.server_static_private allow
            (verify toml temp c f v disk payload source now).2
          ≡ ok w
        → let later = run toml temp c w disk' es in
          ¬ ((verify toml temp c h later.1 later.2 payload source' now').0 ≡ ok b)
    no_replay_after_restart f g h v disk disk' payload source source' now now' a b path clients
          window allow w es at_path apart table reads first loads second =
        let (w', loads', private, same) =
          restart_keeps f g v disk payload source now a path clients window allow at_path apart
            table reads first in
        let started : w ≡ w' = cc (loads, loads') in
        let (p, client, allowed, _, recorded) =
          verify_accepts toml temp c f v disk payload source now a first in
        let id = open-key_id c laws payload v.server_static_private p allowed.opened in
        let reached : highest_counter w p.key_id ≡ p.counter =
          rw (started, same p.key_id id, recorded) (highest_counter-advance_self v p) in
        refuses_replay toml temp c h w disk' payload source' now' b p es
          (rw (started, private) allowed.opened) reached second
