-- ===== src/Noise/Stream.antt =====
-- ghostbro-server/src/noise.rs: NoiseFramedStream, with the Noise session (snow::TransportState) as a
-- parameter. A buffer and a position in it are the bytes that are left.
pub mod Session
pub mod Sending
pub mod Receiving
pub mod Delivery
use ghostbro.Base.{
  ℕ, zero, suc, ◌-◌, List, [], ◌∷◌, ◌++◌, Option, none, some, if◌then◌else◌, ltb, nat_beq, length,
  take, drop, min,
}
use ghostbro.Noise.Socket.{
  Poll, pending, failed, ready, invalid_data, write_zero, os_error, IoError, Inbound, Outbound,
  Room, stalls, refuses, takes,
}
use ghostbro.Noise.Framing.{
  Reader, new_reader, max_frame_len, noise_tag_len, poll_read_outer_frame, frame_bytes,
}

-- A session: each call may fail, and moves the session on when it does not.
pub record Transport : Type 1 where
  pub State : Type 0
  pub write_message : State → List ℕ → Option (List ℕ × State)
  pub read_message : State → List ℕ → Option (List ℕ × State)

abbrev pub max_plaintext_len : ℕ
max_plaintext_len = max_frame_len - noise_tag_len

-- `while pos < pending_write.len()`: the bytes that the socket takes, and those that are left.
unfoldable pub drain : List ℕ → Outbound → Poll (Unit {0}) × List ℕ × List ℕ × Outbound
drain [] o = (ready tt, [], [], o)
drain (b ∷ bs) [] = (pending, [], b ∷ bs, [])
drain (b ∷ bs) (stalls ∷ o) = (pending, [], b ∷ bs, o)
drain (b ∷ bs) (refuses ∷ o) = (failed os_error, [], b ∷ bs, o)
drain (b ∷ bs) (takes zero ∷ o) = (failed write_zero, [], b ∷ bs, o)
drain (b ∷ bs) (takes (suc n) ∷ o) =
    let (outcome, sent, left, o') = drain (drop n bs) o in
    (outcome, b ∷ (take n bs ++ sent), left, o')

module _ (t : Transport) where
  open t use {State, write_message, read_message}

  pub record Stream : Type 0 where
    pub transport : State
    pub plaintext : List ℕ
    pub reader : Reader
    pub pending_write : List ℕ

  unfoldable pub new : State → List ℕ → Stream
  new transport initial_plaintext = record {
    transport = transport;
    plaintext = initial_plaintext;
    reader = new_reader;
    pending_write = [];
  }

  -- The bytes that went to the socket are the second component.
  unfoldable pub poll_flush_pending :
      Stream → Outbound → Poll (Unit {0}) × List ℕ × Stream × Outbound
  poll_flush_pending st o =
      let (outcome, sent, left, o') = drain st.pending_write o in
      (outcome, sent, record st { pending_write = left }, o')

  -- `write_message` has made the frame: it is queued, and the socket takes what it can of it.
  unfoldable pub queue_frame :
      Stream → ℕ → List ℕ → State → Outbound → Poll ℕ × List ℕ × Stream × Outbound
  queue_frame st plaintext_len encrypted transport o =
      let st' = record st { transport = transport } in
      let (outcome, sent, st'', o') =
        poll_flush_pending (record st' { pending_write = frame_bytes encrypted }) o in
      if ltb 65535 (length encrypted) then (failed invalid_data, [], st', o) else elim outcome [
        | pending ↦ (ready plaintext_len, sent, st'', o')
        | failed e ↦ (failed e, sent, st'', o')
        | ready done ↦ (ready plaintext_len, sent, st'', o')
      ]

  -- `poll_write` once what was pending is flushed.
  unfoldable pub write_flushed : List ℕ → Stream → Outbound → Poll ℕ × List ℕ × Stream × Outbound
  write_flushed [] st o = (ready 0, [], st, o)
  write_flushed (b ∷ bs) st o =
      let plaintext_len = min (length (b ∷ bs)) max_plaintext_len in
      elim (write_message st.transport (take plaintext_len (b ∷ bs))) [
        | none ↦ (failed invalid_data, [], st, o)
        | some (encrypted, transport) ↦ queue_frame st plaintext_len encrypted transport o
      ]

  unfoldable pub poll_write : List ℕ → Stream → Outbound → Poll ℕ × List ℕ × Stream × Outbound
  poll_write buf st o =
      let (flushed, sent, st', o') = poll_flush_pending st o in
      let (outcome, more, st'', o'') = write_flushed buf st' o' in
      elim flushed [
        | pending ↦ (pending, sent, st', o')
        | failed e ↦ (failed e, sent, st', o')
        | ready done ↦ (outcome, sent ++ more, st'', o'')
      ]

  -- The first buffer that is not empty is written.
  unfoldable pub poll_write_vectored :
      List (List ℕ) → Stream → Outbound → Poll ℕ × List ℕ × Stream × Outbound
  poll_write_vectored [] st o = (ready 0, [], st, o)
  poll_write_vectored ([] ∷ bufs) st o = poll_write_vectored bufs st o
  poll_write_vectored ((b ∷ bs) ∷ bufs) st o = poll_write (b ∷ bs) st o

  -- The loop of `poll_read`, for a buffer with `remaining` bytes to fill; `none` is out of fuel.
  unfoldable pub read_loop : ℕ → ℕ → Stream → Inbound → Option (Poll (List ℕ) × Stream × Inbound)
  read_loop zero remaining st s = none
  read_loop (suc fuel) remaining st s =
      let (outcome, r, s') = poll_read_outer_frame st.reader s in
      let st' = record st { reader = r } in
      elim st.plaintext [
        | b ∷ bs ↦
            some (
              ready (take remaining (b ∷ bs)),
              record st { plaintext = drop remaining (b ∷ bs) },
              s,
            )
        | [] ↦ elim outcome [
          | pending ↦ some (pending, st', s')
          | failed e ↦ some (failed e, st', s')
          | ready found ↦ elim found [
            | none ↦ some (ready [], st', s')
            | some encrypted ↦ elim (read_message st.transport encrypted) [
              | none ↦ some (failed invalid_data, st', s')
              | some (plaintext, transport) ↦
                  read_loop fuel remaining
                    (record st' { plaintext = plaintext; transport = transport }) s'
            ]
          ]
        ]
      ]

  -- The bytes flushed are the second component; a frame takes two bytes at least, so this is enough fuel.
  unfoldable pub poll_read :
      ℕ
      → ℕ
      → Stream
      → Inbound
      → Outbound
      → Option (Poll (List ℕ) × List ℕ × Stream × Inbound × Outbound)
  poll_read fuel remaining st s o =
      let (flushed, sent, st', o') = poll_flush_pending st o in
      elim flushed [
        | pending ↦ some (pending, sent, st', s, o')
        | failed e ↦ some (failed e, sent, st', s, o')
        | ready done ↦ elim (read_loop fuel remaining st' s) [
          | none ↦ none
          | some (outcome, st'', s') ↦ some (outcome, sent, st'', s', o')
        ]
      ]
