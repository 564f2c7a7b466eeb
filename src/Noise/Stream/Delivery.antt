-- ===== src/Noise/Stream/Delivery.antt =====
-- ghostbro-server/src/noise.rs: two framed streams, one at each end of a connection.
use ghostbro.Base.{
  ℕ, zero, suc, ◌≡◌, refl, sym, ap, ◌∙◌, subst, Option, none, some, List, [], ◌++◌, length, arith,
  All, All-drop, take, drop, take-append-drop, inl,
}
use ghostbro.Base.Bytes.{IsByte}
use mathlib.Core.List.{append_assoc}
use mathlib.Core.Option.{some-injective}
use ghostbro.Noise.Socket.{Poll, pending, failed, ready, Inbound, delivered, Outbound}
use ghostbro.Noise.Framing.Chunks.{unread}
use ghostbro.Noise.Stream.{Transport, Stream, new, poll_write, poll_read}
use ghostbro.Noise.Stream.Session.{TransportLaws}
use ghostbro.Noise.Stream.Sending.{Queued, Wrote, poll_write-Wrote, flushed-Queued, then-Queued}
use ghostbro.Noise.Stream.Receiving.{Awaits, Reads, ReadAnswers, poll_read-Answers}

module _ (t : Transport) where
  -- A writer that offers, at every poll, what has not been taken yet: the bytes that the socket got.
  unfoldable pub write_polls : ℕ → List ℕ → Stream t → Outbound → List ℕ × Stream t
  write_polls zero message st o = ([], st)
  write_polls (suc n) message st o =
      let (outcome, sent, st', o') = poll_write t message st o in
      elim outcome [
        | pending ↦ let (more, st'') = write_polls n message st' o' in (sent ++ more, st'')
        | failed e ↦ (sent, st')
        | ready k ↦ let (more, st'') = write_polls n (drop k message) st' o' in (sent ++ more, st'')
      ]

  -- A reader that polls until a poll fails: the bytes that it gets.
  unfoldable pub read_polls : ℕ → ℕ → Stream t → Inbound → Outbound → List ℕ
  read_polls zero remaining st s o = []
  read_polls (suc n) remaining st s o =
      elim (poll_read t (suc (length (unread st.reader s))) remaining st s o) [
        | none ↦ []
        | some (outcome, sent, st', s', o') ↦ elim outcome [
          | pending ↦ read_polls n remaining st' s' o'
          | failed e ↦ []
          | ready bs ↦ bs ++ read_polls n remaining st' s' o'
        ]
      ]

  -- What has been read, of all that is awaited.
  abbrev pub FirstOf : List ℕ → List ℕ → Type 0
  FirstOf total got = (later : List ℕ) × (total ≡ got ++ later)

  -- A poll, and those after it.
  continue :
      (n remaining : ℕ) (tail total : List ℕ) (outcome : Poll (List ℕ)) (st' : Stream t)
      (s' : Inbound) (o' : Outbound)
      → Reads t tail total outcome st' s'
      → ((total' : List ℕ)
          → Awaits t tail st' s' total'
          → FirstOf total' (read_polls n remaining st' s' o'))
      → FirstOf total (elim outcome [
        | pending ↦ read_polls n remaining st' s' o'
        | failed e ↦ []
        | ready bs ↦ bs ++ read_polls n remaining st' s' o'
      ])
  continue n remaining tail total pending st' s' o' h go = go total h
  continue n remaining tail total (failed e) st' s' o' h go = (total, refl)
  continue n remaining tail total (ready bs) st' s' o' (later, q, a) go =
      let (left, p) = go later a in
      (
        left,
        q ∙ ap (λ x. bs ++ x) p ∙ sym (append_assoc bs (read_polls n remaining st' s' o') left),
      )

  read_polls-FirstOf :
      (n remaining : ℕ) (tail total : List ℕ) (st : Stream t) (s : Inbound) (o : Outbound)
      → Awaits t tail st s total
      → FirstOf total (read_polls n remaining st s o)
  unfolding read_polls
  read_polls-FirstOf zero remaining tail total st s o a = (total, refl)
  read_polls-FirstOf (suc n) remaining tail total st s o a =
      answer (poll_read t (suc (length (unread st.reader s))) remaining st s o)
        (poll_read-Answers t (suc (length (unread st.reader s))) remaining tail total st s o a
          (omega arith))
        (λ total' st' s' o' a'. read_polls-FirstOf n remaining tail total' st' s' o' a')
    where
      answer :
          (result : Option (Poll (List ℕ) × List ℕ × Stream t × Inbound × Outbound))
          → ReadAnswers t tail total result
          → ((total' : List ℕ) (st' : Stream t) (s' : Inbound) (o' : Outbound)
              → Awaits t tail st' s' total'
              → FirstOf total' (read_polls n remaining st' s' o'))
          → FirstOf total (elim result [
            | none ↦ []
            | some (outcome, sent, st', s', o') ↦ elim outcome [
              | pending ↦ read_polls n remaining st' s' o'
              | failed e ↦ []
              | ready bs ↦ bs ++ read_polls n remaining st' s' o'
            ]
          ])
      answer none (out, q, h) go = (total, refl)
      answer (some (outcome, sent, st', s', o')) (out, q, h) go =
          let same = some-injective (outcome, sent, st', s', o') out q in
          continue n remaining tail total outcome st' s' o'
            (subst (λ x. Reads t tail total x.0 x.2 x.3) (sym same) h)
            (λ total'. go total' st' s' o')

  module _ (laws : TransportLaws t) where
    open laws use {InStep}

    -- What a number of writes have sent and queued of a message.
    abbrev Written : t.State → Stream t → List ℕ → List ℕ → Stream t → Type 0
    Written r st message sent st' =
        (accepted rest : List ℕ) × (message ≡ accepted ++ rest)
        × Queued t laws r st sent st' accepted

    one_write :
        (r : t.State) (st : Stream t) (message : List ℕ) (outcome : Poll ℕ) (sent : List ℕ)
        (st' : Stream t)
        → Wrote t laws r st message outcome sent st'
        → Written r st message sent st'
    one_write r st message outcome sent st' w = (
      take w.taken message,
      drop w.taken message,
      sym (take-append-drop w.taken message),
      w.queued,
    )

    more_writes :
        (r : t.State) (st : Stream t) (message : List ℕ) (sent : List ℕ) (st' : Stream t) (k : ℕ)
        → (first : Queued t laws r st sent st' (take k message)) → (more : List ℕ) (st'' : Stream t)
        → Written first.peer st' (drop k message) more st''
        → Written r st message (sent ++ more) st''
    more_writes r st message sent st' k first more st'' (accepted, rest, parts, second) = (
      take k message ++ accepted,
      rest,
      sym (take-append-drop k message)
          ∙ ap (λ x. take k message ++ x) parts
          ∙ sym (append_assoc (take k message) accepted rest),
      then-Queued t laws r st sent st' (take k message) first more st'' accepted second,
    )

    write_polls-Written :
        (n : ℕ) (r : t.State) (message : List ℕ) (st : Stream t) (o : Outbound)
        → InStep st.transport r
        → All IsByte message
        → let out = write_polls n message st o in Written r st message out.0 out.1
    unfolding write_polls
    write_polls-Written zero r message st o step bytes =
        ([], message, refl, flushed-Queued t laws r st [] st.pending_write step refl)
    write_polls-Written (suc n) r message st o step bytes =
        answer (poll_write t message st o) (poll_write-Wrote t laws r st message o step bytes)
          (λ k peer st' o' step'.
            write_polls-Written n peer (drop k message) st' o' step'
              (All-drop IsByte k message bytes))
      where
        answer :
            (out : Poll ℕ × List ℕ × Stream t × Outbound)
            → Wrote t laws r st message out.0 out.1 out.2
            → ((k : ℕ) (peer : t.State) (st' : Stream t) (o' : Outbound)
                → InStep st'.transport peer
                → let more = write_polls n (drop k message) st' o' in
                  Written peer st' (drop k message) more.0 more.1)
            → let res : List ℕ × Stream t = elim out.0 [
              | pending ↦ let more = write_polls n message out.2 out.3 in (out.1 ++ more.0, more.1)
              | failed e ↦ (out.1, out.2)
              | ready k ↦
                  let more = write_polls n (drop k message) out.2 out.3 in (out.1 ++ more.0, more.1)
            ] in
              Written r st message res.0 res.1
        answer (pending, sent, st', o') w go =
            let first : Queued t laws r st sent st' [] =
              subst (λ k. Queued t laws r st sent st' (take k message)) w.counts w.queued in
            let more = write_polls n message st' o' in
            more_writes r st message sent st' 0 first more.0 more.1
              (go 0 first.peer st' o' first.in_step)
        answer (failed e, sent, st', o') w go = one_write r st message (failed e) sent st' w
        answer (ready k, sent, st', o') w go =
            let first : Queued t laws r st sent st' (take k message) =
              subst (λ k. Queued t laws r st sent st' (take k message)) (sym w.counts.0) w.queued in
            let more = write_polls n (drop k message) st' o' in
            more_writes r st message sent st' k first more.0 more.1
              (go k first.peer st' o' first.in_step)

    -- Two ends whose sessions are in step. One writes a message, with any number of polls over a socket
    -- that takes what it will. If what reaches the other end is the first of the bytes sent, then however
    -- they come in chunks, and whatever the sizes of its buffer, that end reads the first bytes of its
    -- initial plaintext and the message.
    pub read_polls-write_polls :
        (w r : t.State) (initial message : List ℕ) (n k remaining : ℕ) (s : Inbound)
        (o o' : Outbound) (lost : List ℕ)
        → InStep w r
        → All IsByte message
        → delivered s ++ lost ≡ (write_polls n message (new t w []) o).0
        → FirstOf (initial ++ message) (read_polls k remaining (new t r initial) s o')
    unfolding new
    read_polls-write_polls w r initial message n k remaining s o o' lost step bytes sent =
        let st : Stream t = new t w [] in
        let out : List ℕ × Stream t = write_polls n message st o in
        let (accepted, rest, parts, q) = write_polls-Written n r message st o step bytes in
        let awaits : Awaits t (lost ++ out.1.pending_write) (new t r initial) s
            (initial ++ accepted) =
          record {
            frames = q.frames;
            message = accepted;
            last = q.peer;
            frames-IsFrame = q.frames-IsFrame;
            reader-IsReader = (omega arith, inl (refl, refl));
            on_wire =
                sym (append_assoc (delivered s) lost out.1.pending_write)
                ∙ ap (λ x. x ++ out.1.pending_write) sent
                ∙ sym q.on_wire;
            opened = q.opened;
            parts = refl;
          } in
        let (later, p) =
          read_polls-FirstOf k remaining (lost ++ out.1.pending_write) (initial ++ accepted)
            (new t r initial) s o' awaits in
        let got : List ℕ = read_polls k remaining (new t r initial) s o' in
        (
          later ++ rest,
          ap (λ x. initial ++ x) parts
              ∙ sym (append_assoc initial accepted rest)
              ∙ ap (λ x. x ++ rest) p
              ∙ append_assoc got later rest,
        )
