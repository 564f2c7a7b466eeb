-- ===== src/Examples/Sessions.antt =====
-- ghostbro-server/src/noise.rs: a session that counts its messages, and connections over it.
use ghostbro.Base.{
  ℕ, zero, suc, ◌-◌, ◌%◌, ◌≤◌, ◌<◌, ◌≡◌, refl, sym, ap, ◌∙◌, inl, false, none, some, List, [], ◌∷◌,
  ◌++◌, if◌then◌else◌, length, take, drop, replicate, All, All-append, length-append, take-append,
  drop-append, bytes_beq, bytes_beq_refl, arith, nat_eq, bytes_eq,
}
use ghostbro.Base.Bytes.{IsByte, to_be_bytes, from_be_bytes, be_value}
use ghostbro.Base.Dict.{lookup, insert}
use ghostbro.Base.Result.{ok, err}
use mathlib.Core.Option.{some-injective}
use ghostbro.Control.{AllowedSource}
use ghostbro.Packet.{KeyId}
use ghostbro.Noise.Socket.{Inbound, quiet, chunk, delivered, takes, stalls}
use ghostbro.Noise.Framing.{new_reader, fill, poll_frame_body, poll_read_outer_frame}
use ghostbro.Noise.Framing.Order.{wire, frames_polled, frames_polled-prefix}
use ghostbro.Noise.Stream.{
  Transport, Stream, drain, new, poll_flush_pending, queue_frame, write_flushed, poll_write,
  poll_read,
}
use ghostbro.Noise.Stream.Session.{TransportLaws, open_all}
use ghostbro.Noise.Stream.Sending.{Wrote, poll_write-Wrote}
use ghostbro.Noise.Stream.Receiving.{Awaits, ReadAnswers, poll_read-Answers}
use ghostbro.Noise.Stream.Delivery.{write_polls, read_polls, FirstOf, read_polls-write_polls}
use ghostbro.Noise.Sessions.{count_of, at_limit, acquire_session}
use ghostbro.Noise.Sessions.Live.{
  Session, opens, closes, held, after_sessions, after_sessions-at_most,
}
use ghostbro.Noise.Connection.{
  Socket, read_exact, write_all, read_frame_body, read_frame_optional, read_frame, write_frame,
  frame_too_long,
}
use ghostbro.Noise.Connection.Frames.{read_frame-write_frame}
use ghostbro.Noise.Handler.{
  ipv4, Responder, socks5, Shared, find_source, verify_client_noise_static, handshake, authenticate,
  read_encrypted_frame, serve_plaintext, serve, with_slot, take_slot, admit_source,
  handle_connection,
}
use ghostbro.Noise.Handler.Admission.{handle_connection-counts}
use ghostbro.Noise.Handler.Identity.{handle_connection-authorized}

-- A tag of sixteen bytes names the place of the message.
abbrev tag : ℕ → List ℕ
tag n = replicate 16 (n % 256)

abbrev body_len : List ℕ → ℕ
body_len c = length c - 16

abbrev toy_transport : Transport
toy_transport = record {
  State = ℕ;
  write_message = λ n m. some (m ++ tag n, suc n);
  read_message = λ n c.
      if bytes_beq (drop (body_len c) c) (tag n) then some (take (body_len c) c, suc n) else none;
}

toy_reads : (n : ℕ) (m : List ℕ) → toy_transport.read_message n (m ++ tag n) ≡ some (m, suc n)
toy_reads n m =
    let size : body_len (m ++ tag n) ≡ length m = omega (arith, length-append m (tag n)) in
    rw
      (
        size,
        drop-append (length m) m (tag n) refl,
        take-append (length m) m (tag n) refl,
        bytes_beq_refl (tag n),
      )
      refl

tag-IsByte : (k b : ℕ) → b < 256 → All IsByte (replicate k b)
tag-IsByte zero b h = tt
tag-IsByte (suc k) b h = (h, tag-IsByte k b h)

abbrev toy_laws : TransportLaws toy_transport
toy_laws = record {
  InStep = λ w r. w ≡ r;
  decrypts = λ w r m c w' step bytes e.
      let pair = some-injective (m ++ tag w, suc w) (c, w') e in
      let same : m ++ tag w ≡ c = ap (λ x. x.0) pair in
      (
        suc r,
        rw (sym same, step) (toy_reads r m),
        sym (ap (λ x. x.1) pair) ∙ ap suc step,
        omega (arith, ap length same, length-append m (tag w)),
        rw (sym same) (All-append IsByte m (tag w) bytes (tag-IsByte 16 (w % 256) (omega arith))),
      );
}

-- Three bytes sealed, a frame of 19 bytes, which comes in two chunks.
abbrev hello : List ℕ
hello = 5 ∷ 1 ∷ 0 ∷ []

abbrev sealed : List ℕ
sealed = hello ++ tag 0

abbrev chunks : Inbound
chunks = chunk (0 ∷ []) ∷ quiet ∷ chunk (19 ∷ 5 ∷ 1 ∷ []) ∷ chunk (0 ∷ tag 0) ∷ []

sealed-IsByte : All IsByte sealed
sealed-IsByte =
    All-append IsByte hello (tag 0) (omega arith, (omega arith, (omega arith, tt)))
      (tag-IsByte 16 0 (omega arith))

frames_polled-prefix_example :
    (later : List (List ℕ)) × (sealed ∷ [] ≡ frames_polled 3 new_reader chunks ++ later)
frames_polled-prefix_example =
    frames_polled-prefix 3 chunks (sealed ∷ []) [] ((sealed-IsByte, omega arith), tt)
      (unfold delivered wire to_be_bytes in refl)

polled : frames_polled 3 new_reader chunks ≡ sealed ∷ []
unfolding frames_polled poll_read_outer_frame poll_frame_body fill from_be_bytes be_value
polled = refl

abbrev client : Stream toy_transport
client = record { transport = 0; plaintext = []; reader = new_reader; pending_write = [] }

hello-IsByte : All IsByte hello
hello-IsByte = (omega arith, (omega arith, (omega arith, tt)))

poll_write-Wrote_example :
    let out = poll_write toy_transport hello client (takes 4 ∷ stalls ∷ []) in
    Wrote toy_transport toy_laws 0 client hello out.0 out.1 out.2
poll_write-Wrote_example =
    poll_write-Wrote toy_transport toy_laws 0 client hello (takes 4 ∷ stalls ∷ []) refl hello-IsByte

awaits : Awaits toy_transport [] client chunks hello
awaits = record {
  frames = sealed ∷ [];
  message = hello;
  last = 1;
  frames-IsFrame = ((sealed-IsByte, omega arith), tt);
  reader-IsReader = (omega arith, inl (refl, refl));
  on_wire = unfold delivered wire to_be_bytes in refl;
  opened = unfold open_all in refl;
  parts = refl;
}

poll_read-Answers_example :
    ReadAnswers toy_transport [] hello (poll_read toy_transport 22 2 client chunks [])
poll_read-Answers_example =
    poll_read-Answers toy_transport 22 2 [] hello client chunks [] awaits
      (unfold delivered in omega arith)

read_polls-write_polls_example :
    FirstOf toy_transport
      (9 ∷ hello)
      (read_polls toy_transport 4 2 (new toy_transport 0 (9 ∷ [])) chunks [])
read_polls-write_polls_example =
    read_polls-write_polls toy_transport toy_laws 0 0 (9 ∷ []) hello 1 4 2 chunks
      (takes 4 ∷ takes 100 ∷ []) [] [] refl hello-IsByte
      (unfold delivered write_polls poll_write poll_flush_pending drain write_flushed queue_frame
          new to_be_bytes in
        refl)

-- Two connections of one key, of which it may have one.
abbrev key : KeyId
key = 7 ∷ []

abbrev visits : List Session
visits = opens key (some 1) ∷ opens key (some 1) ∷ closes key ∷ opens key (some 1) ∷ []

after_sessions-at_most_example : held key (after_sessions visits ([], [])).1 ≤ 1
after_sessions-at_most_example =
    after_sessions-at_most visits ([], []) key 1 (λ k. unfold lookup in refl) (omega arith)
      ((λ _. refl), ((λ _. refl), ((λ _. refl), tt))) (omega arith)

-- Sockets.
abbrev fresh : Socket
fresh = record { input = []; is_reset = false; output = []; writes = 2 }

abbrev framed : Socket
framed = record fresh { input = 0 ∷ 3 ∷ hello ++ 4 ∷ [] }

read_frame-write_frame_example :
    ((write_frame hello fresh).0 ≡ ok tt)
    × (length hello ≤ 16384 → read_frame framed ≡ (ok hello, record framed { input = 4 ∷ [] }))
    × (16384 < length hello → (read_frame framed).0 ≡ err frame_too_long)
read_frame-write_frame_example =
    read_frame-write_frame hello (4 ∷ []) fresh framed 0 (omega arith) refl refl
      (unfold write_frame write_all to_be_bytes in refl)

-- The static key is the third message.
abbrev toy_responder : Responder toy_transport
toy_responder = record {
  Handshake = List ℕ;
  build_responder = λ static_key prologue. some prologue;
  read_message = λ h m. some m;
  write_message = λ h. some (2 ∷ [], h);
  remote_static = λ h. some h;
  into_transport_mode = λ h. some 0;
}

abbrev visitor : AllowedSource
visitor = record {
  entry = record { expiry_ns = 900; key_id = key; client_id = 1 };
  noise_public_key = 9 ∷ 9 ∷ [];
  max_concurrent_sessions = some 1;
}

abbrev shared : Shared
shared = record { sources = (1, visitor) ∷ []; sessions = [] }

abbrev caller : Socket
caller = record {
  input = 0 ∷ 1 ∷ 8 ∷ 0 ∷ 2 ∷ 9 ∷ 9 ∷ 0 ∷ 19 ∷ sealed;
  is_reset = false;
  output = [];
  writes = 2;
}

handle_connection-counts_example :
    count_of key
      (handle_connection toy_transport toy_responder
        (λ k r. r)
        (ipv4 1)
        800
        []
        shared
        caller).1.sessions
    ≡ count_of key []
handle_connection-counts_example =
    handle_connection-counts toy_transport toy_responder (λ k r. r) (ipv4 1) 800 [] shared caller
      key

serves :
    (handle_connection toy_transport toy_responder (λ k r. r) (ipv4 1) 800 [] shared caller).0
    ≡ ok (socks5 (record client { transport = 1; plaintext = hello }))
unfolding handle_connection find_source lookup admit_source authenticate handshake read_frame
    read_frame_optional read_frame_body read_exact write_frame write_all take_slot with_slot serve
    serve_plaintext read_encrypted_frame verify_client_noise_static acquire_session from_be_bytes
    be_value new insert
serves = refl

handle_connection-authorized_example :
    (src_ip : ℕ) × (source : AllowedSource) × (h : List ℕ) × (ipv4 1 ≡ ipv4 src_ip)
    × (lookup src_ip shared.sources ≡ some source)
    × (800 < source.entry.expiry_ns)
    × ((handshake toy_transport toy_responder (λ k r. r) [] source.entry.key_id caller).0 ≡ ok h)
    × (some h ≡ some source.noise_public_key)
    × (at_limit (count_of source.entry.key_id shared.sessions) source.max_concurrent_sessions
        ≡ false)
handle_connection-authorized_example =
    handle_connection-authorized toy_transport toy_responder (λ k r. r) (ipv4 1) 800 [] shared
      caller (socks5 (record client { transport = 1; plaintext = hello })) serves
