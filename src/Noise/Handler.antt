-- ===== src/Noise/Handler.antt =====
-- ghostbro-server/src/noise.rs: handle_connection. The snow crate's handshake and session and the relay
-- are parameters; the clock is an argument. A connection is one step from its accept to its end: in the code
-- others take steps at each await, and Sessions/Live has the slots in any such order.
pub mod Admission
pub mod Identity
use ghostbro.Base.{
  ℕ, Option, none, some, List, [], ◌∷◌, Bool, true, false, if◌then◌else◌, leb, nat_beq, length,
  bytes_beq, nat_eq, ◌&&◌, not,
}
use ghostbro.Base.Dict.{lookup, remove}
use ghostbro.Base.Result.{Result, ok, err}
use ghostbro.Control.{Mirror, AllowedSource}
use ghostbro.Packet.{KeyId}
use ghostbro.Protocol.{protocol_ghost_relay, protocol_socks5}
use ghostbro.Noise.Connection.{
  Refusal, not_ipv4, no_allow_entry, allow_expired, no_responder, handshake_failed,
  no_remote_static, wrong_remote_static, session_limit, no_transport, decrypt_failed,
  encrypt_failed, Socket, Task, return, fail, ◌>>=◌, ◌>>◌, read_frame, write_frame,
}
use ghostbro.Noise.Sessions.{SessionCounts, acquire_session, release}
use ghostbro.Noise.Stream.{Transport, Stream, new}

-- `peer_addr.ip()`
pub data PeerIp : Type 0 where
  ipv4 : ℕ → PeerIp
  ipv6 : PeerIp

-- The first block: the source that opened the gate. An expired entry leaves the mirror.
unfoldable pub find_source : PeerIp → ℕ → Mirror → Result Refusal AllowedSource × Mirror
find_source ipv6 now_ns sources = (err not_ipv4, sources)
find_source (ipv4 src_ip) now_ns sources = elim (lookup src_ip sources) [
  | none ↦ (err no_allow_entry, sources)
  | some source ↦
      if leb source.entry.expiry_ns now_ns
      then (err allow_expired, remove src_ip sources)
      else (ok source, sources)
]

-- A constant-time comparison answers as any other.
unfoldable pub verify_client_noise_static : Option (List ℕ) → List ℕ → Result Refusal (Unit {0})
verify_client_noise_static none expected = err no_remote_static
verify_client_noise_static (some remote) expected =
    if not (nat_beq (length remote) (length expected) && bytes_beq remote expected)
    then err wrong_remote_static
    else ok tt

-- snow's responder for Noise XK, and the session that it turns into.
pub record Responder (t : Transport) : Type 1 where
  pub Handshake : Type 0
  -- private key, prologue
  pub build_responder : List ℕ → List ℕ → Option Handshake
  pub read_message : Handshake → List ℕ → Option Handshake
  pub write_message : Handshake → Option (List ℕ × Handshake)
  pub remote_static : Handshake → Option (List ℕ)
  pub into_transport_mode : Handshake → Option t.State

abbrev pub or_fail : {A : Type 0} → Option A → Refusal → Task A
or_fail none e = fail e
or_fail (some a) e = return a

abbrev pub lift : {A : Type 0} → Result Refusal A → Task A
lift (ok a) = return a
lift (err e) = fail e

-- How a connection is served: SOCKS5 over a framed stream, a relay request answered, or an echo.
pub data Served (t : Transport) : Type 0 where
  socks5 : Stream t → Served t
  relayed echoed : Served t

-- `plaintext.first()`
abbrev pub starts_with : ℕ → List ℕ → Bool
starts_with protocol [] = false
starts_with protocol (first ∷ rest) = nat_beq first protocol

-- What the connections share.
pub record Shared : Type 0 where
  pub sources : Mirror
  pub sessions : SessionCounts

module _ (t : Transport) (snow : Responder t) (relay : KeyId → List ℕ → List ℕ) where
  unfoldable pub read_encrypted_frame : t.State → Task (List ℕ × t.State)
  read_encrypted_frame transport = do
    encrypted ← read_frame
    or_fail (t.read_message transport encrypted) decrypt_failed

  unfoldable pub write_encrypted_frame : t.State → List ℕ → Task (t.State)
  write_encrypted_frame transport plaintext = do
    (encrypted, transport') ← or_fail (t.write_message transport plaintext) encrypt_failed
    write_frame encrypted
    return transport'

  -- The three messages: the client's static key is known after the third.
  unfoldable pub handshake : List ℕ → List ℕ → Task (snow.Handshake)
  handshake static_key prologue = do
    h₀ ← or_fail (snow.build_responder static_key prologue) no_responder
    msg1 ← read_frame
    h₁ ← or_fail (snow.read_message h₀ msg1) handshake_failed
    (msg2, h₂) ← or_fail (snow.write_message h₁) handshake_failed
    write_frame msg2
    msg3 ← read_frame
    or_fail (snow.read_message h₂ msg3) handshake_failed

  unfoldable pub authenticate : List ℕ → AllowedSource → Task (snow.Handshake)
  authenticate static_key source = do
    h ← handshake static_key source.entry.key_id
    lift (verify_client_noise_static (snow.remote_static h) source.noise_public_key)
    return h

  -- `handle_ghost_relay`
  unfoldable pub handle_ghost_relay : KeyId → List ℕ → t.State → Task (Served t)
  handle_ghost_relay key_id request transport =
      write_encrypted_frame transport (relay key_id request) >> return relayed

  -- The match on the first byte.
  unfoldable pub serve_plaintext : KeyId → List ℕ → t.State → Task (Served t)
  serve_plaintext key_id plaintext transport =
      if starts_with protocol_socks5 plaintext
      then return (socks5 (new t transport plaintext))
      else if starts_with protocol_ghost_relay plaintext
      then handle_ghost_relay key_id plaintext transport
      else write_encrypted_frame transport plaintext >> return echoed

  -- What a connection does with its slot.
  unfoldable pub serve : KeyId → snow.Handshake → Task (Served t)
  serve key_id h = do
    transport ← or_fail (snow.into_transport_mode h) no_transport
    (plaintext, transport') ← read_encrypted_frame transport
    serve_plaintext key_id plaintext transport'

  -- The rest of a connection that holds a slot; `_session` is dropped however it ends.
  unfoldable pub with_slot :
      KeyId → snow.Handshake → Shared → Socket → Result Refusal (Served t) × Shared × Socket
  with_slot key_id h shared c =
      let (result, c') = serve key_id h c in
      (result, record shared { sessions = release key_id shared.sessions }, c')

  unfoldable pub take_slot :
      AllowedSource → snow.Handshake → Shared → Socket → Result Refusal (Served t) × Shared × Socket
  take_slot source h shared c =
      let key_id = source.entry.key_id in
      let (granted, sessions) =
        acquire_session shared.sessions key_id source.max_concurrent_sessions in
      let shared' = record shared { sessions = sessions } in
      let served = with_slot key_id h shared' c in
      if granted then served else (err session_limit, shared', c)

  unfoldable pub admit_source :
      List ℕ → AllowedSource → Shared → Socket → Result Refusal (Served t) × Shared × Socket
  admit_source static_key source shared c =
      let (authenticated, c') = authenticate static_key source c in
      elim authenticated [ err e ↦ (err e, shared, c') | ok h ↦ take_slot source h shared c' ]

  unfoldable pub handle_connection :
      PeerIp → ℕ → List ℕ → Shared → Socket → Result Refusal (Served t) × Shared × Socket
  handle_connection peer_ip now_ns static_key shared c =
      let (found, sources) = find_source peer_ip now_ns shared.sources in
      let shared' = record shared { sources = sources } in
      elim found [
        | err e ↦ (err e, shared', c)
        | ok source ↦ admit_source static_key source shared' c
      ]
