-- ===== src/Noise/Framing/Order.antt =====
-- ghostbro-server/src/noise.rs: the frames that a reader hands out are those that were written, in order.
use ghostbro.Base.{
  ℕ, zero, suc, ◌≤◌, ◌≡◌, inl, refl, sym, ap, subst, ◌∙◌, Option, none, some, List, [], ◌∷◌, ◌++◌,
  length, arith, All, All-prefix, All-append, take, drop, take-append, drop-append, length-append,
}
use ghostbro.Base.Bytes.{
  IsByte, to_be_bytes, from_be_bytes, to_be_bytes-IsByte, from_be_bytes-to_be_bytes,
  length-to_be_bytes,
}
use mathlib.Core.List.{append_assoc}
use ghostbro.Noise.Socket.{Poll, pending, failed, ready, Inbound, delivered}
use ghostbro.Noise.Framing.{Reader, new_reader, max_frame_len, poll_read_outer_frame, frame_bytes}
use ghostbro.Noise.Framing.Chunks.{unread, IsReader, Polled, poll-Polled}

-- The bytes of frames on the wire.
unfoldable pub wire : List (List ℕ) → List ℕ
wire [] = []
wire (frame ∷ frames) = frame_bytes frame ++ wire frames

-- A frame that may be sent.
abbrev pub IsFrame : List ℕ → Type 0
IsFrame frame = All IsByte frame × (length frame ≤ max_frame_len)

header-eq :
    (f c : List ℕ)
    → length f ≤ max_frame_len
    → length c ≤ max_frame_len
    → to_be_bytes 2 (length f) ≡ to_be_bytes 2 (length c)
    → length f ≡ length c
header-eq f c hf hc e =
    sym (from_be_bytes-to_be_bytes 2 (length f) (omega (arith, hf)))
    ∙ ap from_be_bytes e
    ∙ from_be_bytes-to_be_bytes 2 (length c) (omega (arith, hc))

-- What stands behind lists of one length is the same, and so are they.
split-eq :
    (n : ℕ) (a b x y : List ℕ) → length a ≡ n → length b ≡ n → a ++ x ≡ b ++ y → (a ≡ b) × (x ≡ y)
split-eq n a b x y ha hb e = (
  sym (take-append n a x ha) ∙ ap (take n) e ∙ take-append n b y hb,
  sym (drop-append n a x ha) ∙ ap (drop n) e ∙ drop-append n b y hb,
)

-- No frame begins another.
pub frame_bytes-eq :
    (f c x y : List ℕ)
    → length f ≤ max_frame_len
    → length c ≤ max_frame_len
    → frame_bytes f ++ x ≡ frame_bytes c ++ y
    → (f ≡ c) × (x ≡ y)
frame_bytes-eq f c x y hf hc e =
    let heads : to_be_bytes 2 (length f) ++ (f ++ x) ≡ to_be_bytes 2 (length c) ++ (c ++ y) =
      sym (append_assoc (to_be_bytes 2 (length f)) f x)
      ∙ e
      ∙ append_assoc (to_be_bytes 2 (length c)) c y in
    let parts =
      split-eq 2 (to_be_bytes 2 (length f)) (to_be_bytes 2 (length c)) (f ++ x) (c ++ y)
        (length-to_be_bytes 2 (length f)) (length-to_be_bytes 2 (length c)) heads in
    split-eq (length c) f c x y (header-eq f c hf hc parts.0) refl parts.1

pub wire-IsByte : (frames : List (List ℕ)) → All IsFrame frames → All IsByte (wire frames)
unfolding wire
wire-IsByte [] h = tt
wire-IsByte (frame ∷ frames) h =
    All-append IsByte (frame_bytes frame) (wire frames)
      (All-append IsByte (to_be_bytes 2 (length frame)) frame (to_be_bytes-IsByte 2 (length frame))
        h.0.0)
      (wire-IsByte frames h.1)

pub wire-append : (a b : List (List ℕ)) → wire (a ++ b) ≡ wire a ++ wire b
unfolding wire
wire-append [] b = refl
wire-append (f ∷ a) b = rw (wire-append a b) (sym (append_assoc (frame_bytes f) (wire a) (wire b)))

-- The frames of a number of polls, up to the first that fails or finds the end.
unfoldable pub frames_polled : ℕ → Reader → Inbound → List (List ℕ)
frames_polled zero r s = []
frames_polled (suc n) r s =
    let (outcome, r', s') = poll_read_outer_frame r s in
    let rest = frames_polled n r' s' in
    elim outcome [
      | pending ↦ rest
      | failed e ↦ []
      | ready found ↦ elim found [ none ↦ [] | some frame ↦ frame ∷ rest ]
    ]

empty_wire : (frame rest : List ℕ) → ¬ (frame_bytes frame ++ rest ≡ [])
empty_wire frame rest e = absurd (
    omega (
      arith,
      ap length e,
      length-append (frame_bytes frame) rest,
      length-append (to_be_bytes 2 (length frame)) frame,
      length-to_be_bytes 2 (length frame),
    ))

-- The frame at the head of the bytes, and what a sender still holds behind them.
ahead :
    (found : List ℕ) (r : Reader) (s : Inbound) (tail left : List ℕ)
    → unread r s ≡ frame_bytes found ++ left
    → frame_bytes found ++ (left ++ tail) ≡ unread r s ++ tail
ahead found r s tail left e =
    sym (ap (λ x. x ++ tail) e ∙ append_assoc (frame_bytes found) left tail)

-- What a poll has done, read against the frames that are still to come; `tail` is what their sender
-- has not let go.
abbrev pub Received : List (List ℕ) → List ℕ → Poll (Option (List ℕ)) → Reader → Inbound → Type 0
Received sent tail pending r' s' = (unread r' s' ++ tail ≡ wire sent) × IsReader r'
Received sent tail (failed e) r' s' = Unit {0}
Received sent tail (ready none) r' s' = (unread r' s' ++ tail ≡ wire sent) × IsReader r'
Received sent tail (ready (some frame)) r' s' =
    (later : List (List ℕ)) × (sent ≡ frame ∷ later)
    × (unread r' s' ++ tail ≡ wire later)
    × IsReader r'

new_reader-IsReader : (r : Reader) → r ≡ new_reader → IsReader r
new_reader-IsReader r e = subst (λ x. IsReader x) (sym e) (omega arith, inl (refl, refl))

Polled-Received :
    (r : Reader) (s : Inbound) (sent : List (List ℕ)) (tail : List ℕ)
    → All IsFrame sent
    → unread r s ++ tail ≡ wire sent
    → (out : Poll (Option (List ℕ)) × Reader × Inbound) → Polled r s out.0 out.1 out.2
    → Received sent tail out.0 out.1 out.2
unfolding wire
Polled-Received r s sent tail fits e (pending, r', s') h = (ap (λ x. x ++ tail) h.0 ∙ e, h.1)
Polled-Received r s sent tail fits e (failed error, r', s') h = tt
Polled-Received r s sent tail fits e (ready none, r', s') h = (ap (λ x. x ++ tail) h.0 ∙ e, h.1)
Polled-Received r s [] tail fits e (ready (some found), r', s') h =
    absurd (empty_wire found (unread r' s' ++ tail) (ahead found r s tail (unread r' s') h.0 ∙ e))
Polled-Received r s (f ∷ later) tail fits e (ready (some found), r', s') h =
    let same =
      frame_bytes-eq found f (unread r' s' ++ tail) (wire later) h.2 fits.0.1
        (ahead found r s tail (unread r' s') h.0 ∙ e) in
    (later, ap (λ x. x ∷ later) (sym same.0), same.1, new_reader-IsReader r' h.1)

-- A poll hands out the next frame that was sent, or leaves them all to come.
pub poll-Received :
    (r : Reader) (s : Inbound) (sent : List (List ℕ)) (tail : List ℕ)
    → All IsFrame sent
    → IsReader r
    → unread r s ++ tail ≡ wire sent
    → let out = poll_read_outer_frame r s in Received sent tail out.0 out.1 out.2
poll-Received r s sent tail fits ok e =
    Polled-Received r s sent tail fits e (poll_read_outer_frame r s)
      (poll-Polled r s (All-prefix IsByte (unread r s) tail (rw e (wire-IsByte sent fits))) ok)

-- A poll, and then what the polls after it hand out.
next_poll :
    (sent : List (List ℕ)) (tail : List ℕ) (rest : Reader → Inbound → List (List ℕ))
    → All IsFrame sent
    → ((r : Reader) (s : Inbound) (left : List (List ℕ))
        → All IsFrame left
        → IsReader r
        → unread r s ++ tail ≡ wire left
        → (later : List (List ℕ)) × (left ≡ rest r s ++ later))
    → (out : Poll (Option (List ℕ)) × Reader × Inbound) → Received sent tail out.0 out.1 out.2
    → (later : List (List ℕ)) × (sent
        ≡ elim out.0 [
          | pending ↦ rest out.1 out.2
          | failed e ↦ []
          | ready found ↦ elim found [ none ↦ [] | some frame ↦ frame ∷ rest out.1 out.2 ]
        ]
          ++ later)
next_poll sent tail rest fits go (pending, r', s') h = go r' s' sent fits h.1 h.0
next_poll sent tail rest fits go (failed error, r', s') h = (sent, refl)
next_poll sent tail rest fits go (ready none, r', s') h = (sent, refl)
next_poll sent tail rest fits go (ready (some frame), r', s') (later, q, e', ok') =
    let fits' : All IsFrame later = (rw q at fits).1 in
    let (left, p) = go r' s' later fits' ok' e' in (left, q ∙ ap (λ x. frame ∷ x) p)

in_order :
    (n : ℕ) (tail : List ℕ) (r : Reader) (s : Inbound) (sent : List (List ℕ))
    → All IsFrame sent
    → IsReader r
    → unread r s ++ tail ≡ wire sent
    → (later : List (List ℕ)) × (sent ≡ frames_polled n r s ++ later)
unfolding frames_polled
in_order zero tail r s sent fits ok e = (sent, refl)
in_order (suc n) tail r s sent fits ok e =
    next_poll sent tail (frames_polled n) fits (in_order n tail) (poll_read_outer_frame r s)
      (poll-Received r s sent tail fits ok e)

-- Whatever the chunks in which bytes come in, and however often the stream is polled: where the bytes
-- are the first of those of a list of frames, each of at most MAX_FRAME_LEN bytes, the frames handed out
-- are the first of that list, in order.
pub frames_polled-prefix :
    (n : ℕ) (s : Inbound) (sent : List (List ℕ)) (tail : List ℕ)
    → All IsFrame sent
    → delivered s ++ tail ≡ wire sent
    → (later : List (List ℕ)) × (sent ≡ frames_polled n new_reader s ++ later)
frames_polled-prefix n s sent tail fits e =
    in_order n tail new_reader s sent fits (omega arith, inl (refl, refl)) e
