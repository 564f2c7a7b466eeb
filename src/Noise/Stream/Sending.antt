-- ===== src/Noise/Stream/Sending.antt =====
-- ghostbro-server/src/noise.rs: what poll_write puts on the wire.
use ghostbro.Base.{
  ℕ, zero, suc, ◌≤◌, ◌≡◌, refl, sym, ap, ◌∙◌, Option, none, some, List, [], ◌∷◌, ◌++◌, min, length,
  arith, All, All-take, All-append, take, drop, take-append-drop, length-take, ltb, false, le→ltb,
  ◌⊎◌, inl, inr,
}
use ghostbro.Base.Bytes.{IsByte}
use mathlib.Core.List.{append_assoc, append-nil}
use ghostbro.Noise.Socket.{
  Poll, pending, failed, ready, invalid_data, Outbound, stalls, refuses, takes,
}
use ghostbro.Noise.Framing.{frame_bytes}
use ghostbro.Noise.Framing.Order.{wire, wire-append, IsFrame}
use ghostbro.Noise.Stream.{
  Transport, Stream, max_plaintext_len, drain, poll_flush_pending, queue_frame, write_flushed,
  poll_write,
}
use ghostbro.Noise.Stream.Session.{TransportLaws, open_all, open_all-cons, open_all-append}

-- The socket takes the bytes from the front, and all of them when the loop is done.
drain-keeps :
    (bs : List ℕ) (o : Outbound)
    → let out = drain bs o in (out.1 ++ out.2 ≡ bs) × (out.0 ≡ ready tt → out.2 ≡ [])
unfolding drain
drain-keeps [] o = (refl, λ _. refl)
drain-keeps (b ∷ bs) [] = (refl, λ h. absurd (cc h))
drain-keeps (b ∷ bs) (stalls ∷ o) = (refl, λ h. absurd (cc h))
drain-keeps (b ∷ bs) (refuses ∷ o) = (refl, λ h. absurd (cc h))
drain-keeps (b ∷ bs) (takes zero ∷ o) = (refl, λ h. absurd (cc h))
drain-keeps (b ∷ bs) (takes (suc n) ∷ o) =
    let (keeps, empties) = drain-keeps (drop n bs) o in
    let (outcome, sent, left, o') = drain (drop n bs) o in
    (
      ap (λ x. b ∷ x)
          (append_assoc (take n bs) (drain (drop n bs) o).1 (drain (drop n bs) o).2
            ∙ ap (λ x. take n bs ++ x) keeps
            ∙ take-append-drop n bs),
      empties,
    )

module _ (t : Transport) (laws : TransportLaws t) where
  open laws use {InStep}

  -- What a step of the stream has sent and queued: the frames `frames`, which the peer in the state `r`
  -- opens to `accepted`.
  pub record Queued (r : t.State) (st : Stream t) (sent : List ℕ) (st' : Stream t)
      (accepted : List ℕ) : Type 0 where
    pub frames : List (List ℕ)
    pub peer : t.State
    pub frames-IsFrame : All IsFrame frames
    pub on_wire : st.pending_write ++ wire frames ≡ sent ++ st'.pending_write
    pub opened : open_all t r frames ≡ some (accepted, peer)
    pub in_step : InStep st'.transport peer

  module _ (r : t.State) where
    -- Nothing is queued, and the bytes sent were pending before.
    pub flushed-Queued :
        (st : Stream t) (sent left : List ℕ)
        → InStep st.transport r
        → sent ++ left ≡ st.pending_write
        → Queued r st sent (record st { pending_write = left }) []
    flushed-Queued st sent left step keeps = record {
      frames = [];
      peer = r;
      frames-IsFrame = tt;
      on_wire = unfold wire in append-nil st.pending_write ∙ sym keeps;
      opened = unfold open_all in refl;
      in_step = step;
    }

    -- One frame is queued behind nothing.
    framed-Queued :
        (st : Stream t) (m c : List ℕ) (transport : t.State) (peer : t.State) (sent left : List ℕ)
        → st.pending_write ≡ []
        → t.read_message r c ≡ some (m, peer)
        → InStep transport peer
        → IsFrame c
        → sent ++ left ≡ frame_bytes c
        → Queued r st sent (record st { transport = transport; pending_write = left }) m
    framed-Queued st m c transport peer sent left idle reads step fits keeps = record {
      frames = c ∷ [];
      peer = peer;
      frames-IsFrame = (fits, tt);
      on_wire =
          unfold wire in
          ap (λ x. x ++ (frame_bytes c ++ [])) idle ∙ append-nil (frame_bytes c) ∙ sym keeps;
      opened =
          open_all-cons t r peer peer c m [] [] reads (unfold open_all in refl)
          ∙ ap (λ x. some (x, peer)) (append-nil m);
      in_step = step;
    }

  -- Two steps.
  pub then-Queued :
      (r : t.State) (st : Stream t) (s₁ : List ℕ) (st₁ : Stream t) (a : List ℕ)
      (first : Queued r st s₁ st₁ a)
      → (s₂ : List ℕ) (st₂ : Stream t) (b : List ℕ) → Queued first.peer st₁ s₂ st₂ b
      → Queued r st (s₁ ++ s₂) st₂ (a ++ b)
  then-Queued r st s₁ st₁ a first s₂ st₂ b second = record {
    frames = first.frames ++ second.frames;
    peer = second.peer;
    frames-IsFrame =
        All-append IsFrame first.frames second.frames first.frames-IsFrame second.frames-IsFrame;
    on_wire =
        ap (λ x. st.pending_write ++ x) (wire-append first.frames second.frames)
        ∙ sym (append_assoc st.pending_write (wire first.frames) (wire second.frames))
        ∙ ap (λ x. x ++ wire second.frames) first.on_wire
        ∙ append_assoc s₁ st₁.pending_write (wire second.frames)
        ∙ ap (λ x. s₁ ++ x) second.on_wire
        ∙ sym (append_assoc s₁ s₂ st₂.pending_write);
    opened =
        open_all-append t first.frames second.frames r first.peer second.peer a b first.opened
          second.opened;
    in_step = second.in_step;
  }

  -- How many bytes a write may take, by its answer: all that fit in a frame where it succeeds, none where it
  -- has to wait, and one or the other where it fails.
  abbrev pub Counts : List ℕ → Poll ℕ → ℕ → Type 0
  Counts buf pending n = n ≡ 0
  Counts buf (failed e) n = (n ≡ 0) ⊎ (n ≡ min (length buf) max_plaintext_len)
  Counts buf (ready k) n = (k ≡ n) × (n ≡ min (length buf) max_plaintext_len)

  -- A write has queued the first bytes of the buffer in one frame, or nothing.
  pub record Wrote (r : t.State) (st : Stream t) (buf : List ℕ) (outcome : Poll ℕ) (sent : List ℕ)
      (st' : Stream t) : Type 0 where
    pub taken : ℕ
    pub counts : Counts buf outcome taken
    pub queued : Queued r st sent st' (take taken buf)
    pub one_frame : length queued.frames ≤ min taken 1

  queue_frame-Wrote :
      (r : t.State) (st : Stream t) (buf c : List ℕ) (n : ℕ) (transport peer : t.State)
      (o : Outbound)
      → st.pending_write ≡ []
      → t.read_message r c ≡ some (take n buf, peer)
      → InStep transport peer
      → IsFrame c
      → n ≡ min (length buf) max_plaintext_len
      → 1 ≤ n
      → let out = queue_frame t st n c transport o in Wrote r st buf out.0 out.1 out.2
  unfolding queue_frame poll_flush_pending framed-Queued
  queue_frame-Wrote r st buf c n transport peer o idle reads step fits whole some_bytes =
      let small : ltb 65535 (length c) ≡ false = le→ltb 65535 (length c) (omega (arith, fits.1)) in
      let q =
        framed-Queued r st (take n buf) c transport peer (drain (frame_bytes c) o).1
          (drain (frame_bytes c) o).2 idle reads step fits (drain-keeps (frame_bytes c) o).0 in
      rw small (answer (drain (frame_bytes c) o) q (omega (arith, some_bytes)))
    where
      answer :
          (out : Poll (Unit {0}) × List ℕ × List ℕ × Outbound)
          → (q : Queued r st out.1
              (record st { transport = transport; pending_write = out.2 })
              (take n buf))
          → length q.frames ≤ min n 1
          → let st'' : Stream t = record st { transport = transport; pending_write = out.2 } in
            let res : Poll ℕ × List ℕ × Stream t × Outbound = elim out.0 [
              | pending ↦ (ready n, out.1, st'', out.3)
              | failed e ↦ (failed e, out.1, st'', out.3)
              | ready done ↦ (ready n, out.1, st'', out.3)
            ] in
            Wrote r st buf res.0 res.1 res.2
      answer (pending, sent, left, o') q one = record {
        taken = n;
        counts = (refl, whole);
        queued = q;
        one_frame = one;
      }
      answer (failed e, sent, left, o') q one = record {
        taken = n;
        counts = inr whole;
        queued = q;
        one_frame = one;
      }
      answer (ready done, sent, left, o') q one = record {
        taken = n;
        counts = (refl, whole);
        queued = q;
        one_frame = one;
      }

  nothing-Wrote :
      (r : t.State) (st : Stream t) (buf : List ℕ) (outcome : Poll ℕ)
      → InStep st.transport r
      → Counts buf outcome 0
      → Wrote r st buf outcome [] st
  unfolding flushed-Queued
  nothing-Wrote r st buf outcome step counts = record {
    taken = 0;
    counts = counts;
    queued = flushed-Queued r st [] st.pending_write step refl;
    one_frame = omega arith;
  }

  write_flushed-Wrote :
      (r : t.State) (st : Stream t) (buf : List ℕ) (o : Outbound)
      → InStep st.transport r
      → st.pending_write ≡ []
      → All IsByte buf
      → let out = write_flushed t buf st o in Wrote r st buf out.0 out.1 out.2
  unfolding write_flushed
  write_flushed-Wrote r st [] o step idle bytes = nothing-Wrote r st [] (ready 0) step (refl, refl)
  write_flushed-Wrote r st (b ∷ bs) o step idle bytes =
      let n : ℕ = min (length (b ∷ bs)) max_plaintext_len in
      let m : List ℕ = take n (b ∷ bs) in
      answer (t.write_message st.transport m) (λ c transport wrote.
        let (peer, reads, step', size, c_bytes) =
          laws.decrypts st.transport r m c transport step (All-take IsByte n (b ∷ bs) bytes)
            wrote in
        let short : length m ≤ max_plaintext_len = omega (arith, length-take n (b ∷ bs)) in
        queue_frame-Wrote r st (b ∷ bs) c n transport peer o idle reads step'
          (c_bytes, omega (arith, size, short)) refl (omega arith))
    where
      answer :
          (sealed : Option (List ℕ × t.State))
          → ((c : List ℕ) (transport : t.State)
              → sealed ≡ some (c, transport)
              → let out =
                  queue_frame t st (min (length (b ∷ bs)) max_plaintext_len) c transport o in
                Wrote r st (b ∷ bs) out.0 out.1 out.2)
          → let res : Poll ℕ × List ℕ × Stream t × Outbound = elim sealed [
            | none ↦ (failed invalid_data, [], st, o)
            | some (c, transport) ↦
                queue_frame t st (min (length (b ∷ bs)) max_plaintext_len) c transport o
          ] in
            Wrote r st (b ∷ bs) res.0 res.1 res.2
      answer none h = nothing-Wrote r st (b ∷ bs) (failed invalid_data) step (inl refl)
      answer (some (c, transport)) h = h c transport refl

  -- Whatever the socket does, and whether the call succeeds or not: the bytes that poll_write sends,
  -- followed by those that it leaves pending, are those that were pending and then at most one frame,
  -- which the peer decrypts to the first bytes of the buffer. A call that succeeds reports their number,
  -- as many as the buffer has and a frame holds; one that has to wait takes none and queues no frame;
  -- one that fails has done the one or the other. The session keeps in step with the peer's.
  pub poll_write-Wrote :
      (r : t.State) (st : Stream t) (buf : List ℕ) (o : Outbound)
      → InStep st.transport r
      → All IsByte buf
      → let out = poll_write t buf st o in Wrote r st buf out.0 out.1 out.2
  unfolding poll_write poll_flush_pending flushed-Queued then-Queued
  poll_write-Wrote r st buf o step bytes =
      answer (drain st.pending_write o) (drain-keeps st.pending_write o)
    where
      answer :
          (out : Poll (Unit {0}) × List ℕ × List ℕ × Outbound)
          → (out.1 ++ out.2 ≡ st.pending_write) × (out.0 ≡ ready tt → out.2 ≡ [])
          → let st' : Stream t = record st { pending_write = out.2 } in
            let more = write_flushed t buf st' out.3 in
            let res : Poll ℕ × List ℕ × Stream t × Outbound = elim out.0 [
              | pending ↦ (pending, out.1, st', out.3)
              | failed e ↦ (failed e, out.1, st', out.3)
              | ready done ↦ (more.0, out.1 ++ more.1, more.2, more.3)
            ] in
            Wrote r st buf res.0 res.1 res.2
      answer (pending, sent, left, o') keeps = record {
        taken = 0;
        counts = refl;
        queued = flushed-Queued r st sent left step keeps.0;
        one_frame = omega arith;
      }
      answer (failed e, sent, left, o') keeps = record {
        taken = 0;
        counts = inl refl;
        queued = flushed-Queued r st sent left step keeps.0;
        one_frame = omega arith;
      }
      answer (ready done, sent, left, o') keeps =
          let st' : Stream t = record st { pending_write = left } in
          let first = flushed-Queued r st sent left step keeps.0 in
          let second = write_flushed-Wrote r st' buf o' step (keeps.1 refl) bytes in
          let more = write_flushed t buf st' o' in
          record {
            taken = second.taken;
            counts = second.counts;
            queued =
                then-Queued r st sent st' [] first more.1 more.2 (take second.taken buf)
                  second.queued;
            one_frame = second.one_frame;
          }
