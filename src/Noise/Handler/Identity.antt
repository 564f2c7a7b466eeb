-- ===== src/Noise/Handler/Identity.antt =====
-- ghostbro-server/src/noise.rs: a connection that is served comes from an open address, and from the client
-- whose packet opened it.
use ghostbro.Base.{
  ℕ, ◌≡◌, ◌<◌, refl, sym, ap, ◌∙◌, none, some, List, Option, false, arith, Bool-cases, inl, inr,
  leb, bytes_beq_iff, nat_eq, if◌then◌else◌,
}
use ghostbro.Base.Dict.{lookup, remove}
use ghostbro.Base.Result.{Result, ok, err, Result-cases}
use ghostbro.Control.{AllowedSource, Mirror}
use ghostbro.Packet.{KeyId}
use ghostbro.Noise.Connection.{
  Refusal, no_allow_entry, allow_expired, Socket, Task, then_run, return,
}
use ghostbro.Noise.Sessions.{acquire_session, count_of, at_limit}
use ghostbro.Noise.Sessions.Live.{count_of-acquire}
use ghostbro.Noise.Stream.{Transport}
use ghostbro.Noise.Handler.{
  PeerIp, ipv4, ipv6, Responder, Served, Shared, find_source, verify_client_noise_static, lift,
  authenticate, handshake, take_slot, admit_source, handle_connection,
}

then_run-eq-ok :
    {A B : Type 0} (out : Result Refusal A × Socket) (next : A → Task B) (b : B) (c' : Socket)
    → then_run out next ≡ (ok b, c')
    → (a : A) × (out.0 ≡ ok a) × (next a out.1 ≡ (ok b, c'))
then_run-eq-ok (err e, c) next b c' h = absurd (cc (ap (λ x. x.0) h))
then_run-eq-ok (ok a, c) next b c' h = (a, refl, h)

-- The client's key is the one that is expected, exactly when the check passes.
verify_static-eq-ok :
    (remote : Option (List ℕ)) (expected : List ℕ) (u : Unit {0})
    → verify_client_noise_static remote expected ≡ ok u
    → remote ≡ some expected
unfolding verify_client_noise_static
verify_static-eq-ok none expected u h = cc
verify_static-eq-ok (some remote) expected u h = ground (arith, bytes_beq_iff remote expected)

ok-injective : {A : Type 0} {a b : A} → ◌≡◌ {A = Result Refusal A} (ok a) (ok b) → a ≡ b
ok-injective e = cc

found-eq-ok :
    (peer : PeerIp) (now_ns : ℕ) (sources : Mirror) (source : AllowedSource)
    → (find_source peer now_ns sources).0 ≡ ok source
    → (src_ip : ℕ) × (peer ≡ ipv4 src_ip)
      × (lookup src_ip sources ≡ some source)
      × (now_ns < source.entry.expiry_ns)
unfolding find_source
found-eq-ok ipv6 now_ns sources source h = absurd (cc h)
found-eq-ok (ipv4 src_ip) now_ns sources source h =
    let (held, live) = entry (lookup src_ip sources) refl h in (src_ip, refl, held, live)
  where
    entry :
        (o : Option AllowedSource)
        → lookup src_ip sources ≡ o
        → (let res : Result Refusal AllowedSource × Mirror = elim o [
          | none ↦ (err no_allow_entry, sources)
          | some s ↦
              if leb s.entry.expiry_ns now_ns
              then (err allow_expired, remove src_ip sources)
              else (ok s, sources)
        ] in
            res.0 ≡ ok source)
        → (lookup src_ip sources ≡ some source) × (now_ns < source.entry.expiry_ns)
    entry none q e = absurd (cc e)
    entry (some s) q e = elim (Bool-cases (leb s.entry.expiry_ns now_ns)) [
      | inl expired ↦ absurd (cc (rw expired at e))
      | inr live ↦
          let same : s ≡ source = ok-injective (rw live at e) in
          (q ∙ ap some same, rw (sym same) (ground (arith, live)))
    ]

module _ (t : Transport) (snow : Responder t) (relay : KeyId → List ℕ → List ℕ) where
  checked-eq-ok :
      (verified : Result Refusal (Unit {0})) (h h' : snow.Handshake) (c c' : Socket)
      → then_run (lift verified c) (λ _. return h) ≡ (ok h', c')
      → (verified ≡ ok tt) × (h ≡ h')
  checked-eq-ok (err e) h h' c c' q = absurd (cc (ap (λ x. x.0) q))
  checked-eq-ok (ok u) h h' c c' q = (refl, ok-injective (ap (λ x. x.0) q))

  authenticate-eq-ok :
      (static_key : List ℕ) (source : AllowedSource) (c : Socket) (h : snow.Handshake)
      → (authenticate t snow relay static_key source c).0 ≡ ok h
      → ((handshake t snow relay static_key source.entry.key_id c).0 ≡ ok h)
        × (snow.remote_static h ≡ some source.noise_public_key)
  unfolding authenticate
  authenticate-eq-ok static_key source c h e =
      let out = authenticate t snow relay static_key source c in
      let (h', shaken, rest) =
        then_run-eq-ok (handshake t snow relay static_key source.entry.key_id c) _ h out.1
          (λ i. (e i, out.1)) in
      let (passed, same) =
        checked-eq-ok (verify_client_noise_static (snow.remote_static h') source.noise_public_key)
          h' h (handshake t snow relay static_key source.entry.key_id c).1 out.1 rest in
      (
        shaken ∙ ap ok same,
        rw (sym same)
            (verify_static-eq-ok (snow.remote_static h') source.noise_public_key tt passed),
      )

  granted-eq-ok :
      (source : AllowedSource) (h : snow.Handshake) (shared : Shared) (c : Socket)
      (served : Served t)
      → (take_slot t snow relay source h shared c).0 ≡ ok served
      → at_limit (count_of source.entry.key_id shared.sessions) source.max_concurrent_sessions
        ≡ false
  unfolding take_slot
  granted-eq-ok source h shared c served e =
      let key_id : KeyId = source.entry.key_id in
      let limit : Option ℕ = source.max_concurrent_sessions in
      let (answer, counts) = count_of-acquire key_id key_id limit shared.sessions in
      elim (Bool-cases (at_limit (count_of key_id shared.sessions) limit)) [
        | inr free ↦ free
        | inl full ↦
            let refused : (acquire_session shared.sessions key_id limit).0 ≡ false =
              rw full at answer in
            absurd (cc (simp (refused) at e))
      ]

  -- A connection that is served, by SOCKS5, the relay or an echo, comes from an address that the mirror holds
  -- an unexpired entry for; its handshake, run with that entry's key id as the prologue, ended well and proved the static
  -- key that the entry names; and its key had a free slot.
  pub handle_connection-authorized :
      (peer : PeerIp) (now_ns : ℕ) (static_key : List ℕ) (shared : Shared) (c : Socket)
      (served : Served t)
      → (handle_connection t snow relay peer now_ns static_key shared c).0 ≡ ok served
      → (src_ip : ℕ) × (source : AllowedSource) × (h : snow.Handshake) × (peer ≡ ipv4 src_ip)
        × (lookup src_ip shared.sources ≡ some source)
        × (now_ns < source.entry.expiry_ns)
        × ((handshake t snow relay static_key source.entry.key_id c).0 ≡ ok h)
        × (snow.remote_static h ≡ some source.noise_public_key)
        × (at_limit (count_of source.entry.key_id shared.sessions) source.max_concurrent_sessions
            ≡ false)
  unfolding handle_connection admit_source
  handle_connection-authorized peer now_ns static_key shared c served e =
      elim (Result-cases (find_source peer now_ns shared.sources).0) [
        | inl (refused, found) ↦ absurd (cc (simp (found, handle_connection) at e))
        | inr (source, found) ↦
            elim (Result-cases (authenticate t snow relay static_key source c).0) [
              | inl (refused, shaken) ↦
                  absurd (cc (simp (found, shaken, handle_connection, admit_source) at e))
              | inr (h, shaken) ↦
                  let (src_ip, from, held, live) =
                    found-eq-ok peer now_ns shared.sources source found in
                  let (ended, proved) = authenticate-eq-ok static_key source c h shaken in
                  let shared' : Shared = record shared {
                    sources = (find_source peer now_ns shared.sources).1;
                  } in
                  (
                    src_ip,
                    source,
                    h,
                    from,
                    held,
                    live,
                    ended,
                    proved,
                    granted-eq-ok source h shared' (authenticate t snow relay static_key source c).1
                        served (simp (found, shaken, handle_connection, admit_source) at e),
                  )
            ]
      ]
