-- ===== src/Noise/Stream/Receiving.antt =====
-- ghostbro-server/src/noise.rs: what poll_read hands out.
use ghostbro.Base.{
  ℕ, zero, suc, ◌<◌, ◌≡◌, refl, sym, ap, subst, ◌∙◌, Option, none, some, List, [], ◌∷◌, ◌++◌,
  length, arith, All, take, drop, take-append-drop, length-append,
}
use mathlib.Core.List.{append_assoc}
use mathlib.Core.Option.{some-injective}
use ghostbro.Noise.Socket.{Poll, pending, failed, ready, invalid_data, Inbound, Outbound}
use ghostbro.Noise.Framing.{Reader, poll_read_outer_frame, frame_bytes}
use ghostbro.Base.Bytes.{to_be_bytes, length-to_be_bytes}
use ghostbro.Noise.Framing.Chunks.{unread, IsReader}
use ghostbro.Noise.Framing.Order.{wire, IsFrame, Received, poll-Received}
use ghostbro.Noise.Stream.{Transport, Stream, drain, poll_flush_pending, read_loop, poll_read}
use ghostbro.Noise.Stream.Session.{open_all, open_all-uncons}

module _ (t : Transport) where
  -- What is still to be read of a stream: the plaintext at hand, and that of the frames to come, of which
  -- `tail` has not been let go by their sender.
  pub record Awaits (tail : List ℕ) (st : Stream t) (s : Inbound) (total : List ℕ) : Type 0 where
    pub frames : List (List ℕ)
    pub message : List ℕ
    pub last : t.State
    pub frames-IsFrame : All IsFrame frames
    pub reader-IsReader : IsReader st.reader
    pub on_wire : unread st.reader s ++ tail ≡ wire frames
    pub opened : open_all t st.transport frames ≡ some (message, last)
    pub parts : total ≡ st.plaintext ++ message

  -- A read hands out the first of the bytes that are awaited, and the others stay.
  abbrev pub Reads : List ℕ → List ℕ → Poll (List ℕ) → Stream t → Inbound → Type 0
  Reads tail total pending st' s' = Awaits tail st' s' total
  Reads tail total (failed e) st' s' = Unit {0}
  Reads tail total (ready bs) st' s' =
      (later : List ℕ) × (total ≡ bs ++ later) × Awaits tail st' s' later

  -- What the loop answers: it does, and as it should.
  abbrev Answers : List ℕ → List ℕ → Option (Poll (List ℕ) × Stream t × Inbound) → Type 0
  Answers tail total result =
      (out : Poll (List ℕ) × Stream t × Inbound) × (result ≡ some out)
      × Reads tail total out.0 out.1 out.2

  -- A frame that has been taken leaves fewer bytes.
  taken_shrinks :
      (r r' : Reader) (s s' : Inbound) (tail frame : List ℕ) (frames later : List (List ℕ))
      → unread r s ++ tail ≡ wire frames
      → frames ≡ frame ∷ later
      → unread r' s' ++ tail ≡ wire later
      → length (unread r' s') < length (unread r s)
  unfolding wire
  taken_shrinks r r' s s' tail frame frames later before q after =
      let whole : unread r s ++ tail ≡ frame_bytes frame ++ wire later = before ∙ ap wire q in
      omega (
        arith,
        ap length whole,
        ap length after,
        length-append (unread r s) tail,
        length-append (unread r' s') tail,
        length-append (frame_bytes frame) (wire later),
        length-append (to_be_bytes 2 (length frame)) frame,
        length-to_be_bytes 2 (length frame),
      )

  -- The plaintext at hand is handed out first.
  at_hand-Reads :
      (remaining : ℕ) (tail total : List ℕ) (st : Stream t) (s : Inbound)
      → Awaits tail st s total
      → Reads tail total
          (ready (take remaining st.plaintext))
          (record st { plaintext = drop remaining st.plaintext })
          s
  at_hand-Reads remaining tail total st s a =
      let left : List ℕ = drop remaining st.plaintext in
      (
        left ++ a.message,
        a.parts
            ∙ ap (λ x. x ++ a.message) (sym (take-append-drop remaining st.plaintext))
            ∙ append_assoc (take remaining st.plaintext) left a.message,
        record {
          frames = a.frames;
          message = a.message;
          last = a.last;
          frames-IsFrame = a.frames-IsFrame;
          reader-IsReader = a.reader-IsReader;
          on_wire = a.on_wire;
          opened = a.opened;
          parts = refl;
        },
      )

  abbrev Loop : Type 0
  Loop = Stream t → Inbound → Option (Poll (List ℕ) × Stream t × Inbound)

  -- The body of the loop once no plaintext is at hand.
  abbrev loop_body :
      Loop
      → Stream t
      → Poll (Option (List ℕ)) × Reader × Inbound
      → Option (Poll (List ℕ) × Stream t × Inbound)
  loop_body next st (outcome, r, s') =
      let st' : Stream t = record st { reader = r } in
      elim outcome [
        | pending ↦ some (pending, st', s')
        | failed e ↦ some (failed e, st', s')
        | ready found ↦ elim found [
          | none ↦ some (ready [], st', s')
          | some encrypted ↦ elim (t.read_message st.transport encrypted) [
            | none ↦ some (failed invalid_data, st', s')
            | some (plaintext, transport) ↦
                next (record st' { plaintext = plaintext; transport = transport }) s'
          ]
        ]
      ]

  module _ (tail total : List ℕ) (st : Stream t) (s : Inbound) (a : Awaits tail st s total) where
    -- The frames stay as they are.
    waiting-Awaits :
        (r : Reader) (s' : Inbound)
        → unread r s' ++ tail ≡ wire a.frames
        → IsReader r
        → Awaits tail (record st { reader = r }) s' total
    waiting-Awaits r s' e ok = record {
      frames = a.frames;
      message = a.message;
      last = a.last;
      frames-IsFrame = a.frames-IsFrame;
      reader-IsReader = ok;
      on_wire = e;
      opened = a.opened;
      parts = a.parts;
    }

    loop_body-Answers :
        (next : Loop)
        → ((st' : Stream t) (s' : Inbound)
            → length (unread st'.reader s') < length (unread st.reader s)
            → Awaits tail st' s' total
            → Answers tail total (next st' s'))
        → st.plaintext ≡ []
        → (out : Poll (Option (List ℕ)) × Reader × Inbound)
        → Received a.frames tail out.0 out.1 out.2
        → Answers tail total (loop_body next st out)
    loop_body-Answers next go empty (pending, r, s') h = (_, refl, waiting-Awaits r s' h.0 h.1)
    loop_body-Answers next go empty (failed e, r, s') h = (_, refl, tt)
    loop_body-Answers next go empty (ready none, r, s') h =
        (_, refl, (total, refl, waiting-Awaits r s' h.0 h.1))
    loop_body-Answers next go empty (ready (some frame), r, s') (later, q, e, ok) =
        let opened : open_all t st.transport (frame ∷ later) ≡ some (a.message, a.last) =
          ap (open_all t st.transport) (sym q) ∙ a.opened in
        let (m, ms, transport, reads, rest, parts) =
          open_all-uncons t st.transport a.last frame a.message later opened in
        let st' : Stream t = record st { reader = r; plaintext = m; transport = transport } in
        let fits : All IsFrame later = (rw q at a.frames-IsFrame).1 in
        let awaits : Awaits tail st' s' total = record {
          frames = later;
          message = ms;
          last = a.last;
          frames-IsFrame = fits;
          reader-IsReader = ok;
          on_wire = e;
          opened = rest;
          parts = a.parts ∙ ap (λ x. x ++ a.message) empty ∙ parts;
        } in
        let shrinks = taken_shrinks st.reader r s s' tail frame a.frames later a.on_wire q e in
        subst
          (λ x. Answers tail total (elim x [
            | none ↦ some (failed invalid_data, record st { reader = r }, s')
            | some (plaintext, transport) ↦
                next (record st { reader = r; plaintext = plaintext; transport = transport }) s'
          ]))
          (sym reads) (go st' s' shrinks awaits)

  -- With more fuel than bytes that have come, the loop of poll_read ends, and hands out the first of the
  -- bytes awaited.
  pub read_loop-Answers :
      (fuel remaining : ℕ) (tail total : List ℕ) (st : Stream t) (s : Inbound)
      → Awaits tail st s total
      → length (unread st.reader s) < fuel
      → Answers tail total (read_loop t fuel remaining st s)
  unfolding read_loop
  read_loop-Answers zero remaining tail total st s a enough = absurd (omega (arith, enough))
  read_loop-Answers (suc fuel) remaining tail total st s a enough =
      choose st.plaintext refl (λ empty.
        loop_body-Answers tail total st s a (read_loop t fuel remaining)
          (λ st' s' less a'.
            read_loop-Answers fuel remaining tail total st' s' a' (omega (arith, less, enough)))
          empty (poll_read_outer_frame st.reader s)
          (poll-Received st.reader s a.frames tail a.frames-IsFrame a.reader-IsReader a.on_wire))
    where
      choose :
          (p : List ℕ)
          → st.plaintext ≡ p
          → (st.plaintext ≡ []
              → Answers tail total
                  (loop_body (read_loop t fuel remaining) st (poll_read_outer_frame st.reader s)))
          → Answers tail total (elim p [
            | b ∷ bs ↦ some (
              ready (take remaining (b ∷ bs)),
              record st { plaintext = drop remaining (b ∷ bs) },
              s,
            )
            | [] ↦ loop_body (read_loop t fuel remaining) st (poll_read_outer_frame st.reader s)
          ])
      choose [] q body = body q
      choose (b ∷ bs) q body = (
        _,
        refl,
        subst
            (λ x.
              Reads tail total (ready (take remaining x))
                (record st { plaintext = drop remaining x }) s)
            q (at_hand-Reads remaining tail total st s a),
      )

  -- The answer of poll_read: it comes, and hands out the first of the bytes awaited.
  abbrev pub ReadAnswers :
      List ℕ → List ℕ → Option (Poll (List ℕ) × List ℕ × Stream t × Inbound × Outbound) → Type 0
  ReadAnswers tail total result =
      (out : Poll (List ℕ) × List ℕ × Stream t × Inbound × Outbound) × (result ≡ some out)
      × Reads tail total out.0 out.2 out.3

  -- poll_read ends on every chunk schedule, when its loop is given more fuel than bytes that have come; and
  -- it hands out the first of the bytes that are awaited, or fails, or hands out nothing. What it flushes
  -- of its own frames does not matter.
  pub poll_read-Answers :
      (fuel remaining : ℕ) (tail total : List ℕ) (st : Stream t) (s : Inbound) (o : Outbound)
      → Awaits tail st s total
      → length (unread st.reader s) < fuel
      → ReadAnswers tail total (poll_read t fuel remaining st s o)
  unfolding poll_read poll_flush_pending
  poll_read-Answers fuel remaining tail total st s o a enough = answer (drain st.pending_write o)
    where
      flushed : (left : List ℕ) → Awaits tail (record st { pending_write = left }) s total
      flushed left = record {
        frames = a.frames;
        message = a.message;
        last = a.last;
        frames-IsFrame = a.frames-IsFrame;
        reader-IsReader = a.reader-IsReader;
        on_wire = a.on_wire;
        opened = a.opened;
        parts = a.parts;
      }

      with_loop :
          (sent : List ℕ) (o' : Outbound) (looped : Option (Poll (List ℕ) × Stream t × Inbound))
          → Answers tail total looped
          → ReadAnswers tail total (elim looped [
            | none ↦ none
            | some (outcome, st'', s') ↦ some (outcome, sent, st'', s', o')
          ])
      with_loop sent o' none (out, q, h) = absurd (cc q)
      with_loop sent o' (some (outcome, st'', s')) (out, q, h) =
          let same = some-injective (outcome, st'', s') out q in
          (_, refl, subst (λ x. Reads tail total x.0 x.1 x.2) (sym same) h)

      answer :
          (out : Poll (Unit {0}) × List ℕ × List ℕ × Outbound)
          → let st' : Stream t = record st { pending_write = out.2 } in
            ReadAnswers tail total (elim out.0 [
              | pending ↦ some (pending, out.1, st', s, out.3)
              | failed e ↦ some (failed e, out.1, st', s, out.3)
              | ready done ↦ elim (read_loop t fuel remaining st' s) [
                | none ↦ none
                | some (outcome, st'', s') ↦ some (outcome, out.1, st'', s', out.3)
              ]
            ])
      answer (pending, sent, left, o') = (_, refl, flushed left)
      answer (failed e, sent, left, o') = (_, refl, tt)
      answer (ready done, sent, left, o') =
          let st' : Stream t = record st { pending_write = left } in
          with_loop sent o' (read_loop t fuel remaining st' s)
            (read_loop-Answers fuel remaining tail total st' s (flushed left) enough)
