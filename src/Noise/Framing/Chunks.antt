-- ===== src/Noise/Framing/Chunks.antt =====
-- ghostbro-server/src/noise.rs: the frames that poll_read_outer_frame hands out do not depend on how the
-- bytes come in.
use ghostbro.Base.{
  ℕ, ◌≤◌, ◌<◌, ◌≡◌, ◌⊎◌, inl, inr, refl, sym, ap, ◌∙◌, Option, none, some, false, List, [], ◌++◌,
  length, arith, All, All-prefix, Bool-cases, if◌then◌else◌, nat_beq, ltb,
}
use ghostbro.Base.Bytes.{IsByte, to_be_bytes, from_be_bytes, to_be_bytes-from_be_bytes}
use mathlib.Core.List.{append_assoc}
use ghostbro.Noise.Socket.{
  Poll, pending, failed, ready, os_error, unexpected_eof, invalid_data, Inbound, delivered,
}
use ghostbro.Noise.Framing.{
  Reader, new_reader, max_frame_len, Filled, full, waits, broke, ended, fill, poll_frame_body,
  poll_read_outer_frame, frame_bytes,
}
use ghostbro.Noise.Framing.Fill.{fill_full, Reached, fill-keeps, fill-Reached}

-- The bytes that have come and are in no frame yet, and those that are still to come.
abbrev pub unread : Reader → Inbound → List ℕ
unread r s = r.read_len ++ (r.encrypted_read ++ delivered s)

-- A reader between two polls: no frame begun, or one whose length is known and which is not complete.
abbrev pub IsReader : Reader → Type 0
IsReader r =
    (length r.read_len ≤ 2)
    × (((r.frame_len ≡ 0) × (r.encrypted_read ≡ []))
        ⊎ ((length r.read_len ≡ 2)
            × (r.frame_len ≡ from_be_bytes r.read_len)
            × (r.frame_len ≤ max_frame_len)
            × (length r.encrypted_read < r.frame_len)))

-- What a poll has done with the bytes.
abbrev pub Polled : Reader → Inbound → Poll (Option (List ℕ)) → Reader → Inbound → Type 0
Polled r s pending r' s' = (unread r' s' ≡ unread r s) × IsReader r'
Polled r s (failed e) r' s' = Unit {0}
Polled r s (ready none) r' s' = (unread r' s' ≡ unread r s) × IsReader r'
Polled r s (ready (some frame)) r' s' =
    (unread r s ≡ frame_bytes frame ++ unread r' s')
    × (r' ≡ new_reader)
    × (length frame ≤ max_frame_len)

-- The header of a frame of the length that it announces.
header_written :
    (l frame : List ℕ)
    → All IsByte l
    → length l ≡ 2
    → length frame ≡ from_be_bytes l
    → to_be_bytes 2 (length frame) ≡ l
header_written l frame bytes two size = rw size (to_be_bytes-from_be_bytes 2 l bytes two)

body-Polled :
    (r : Reader) (s : Inbound)
    → All IsByte r.read_len
    → length r.read_len ≡ 2
    → r.frame_len ≡ from_be_bytes r.read_len
    → r.frame_len ≤ max_frame_len
    → length r.encrypted_read ≤ r.frame_len
    → let out = poll_frame_body r s in Polled r s out.0 out.1 out.2
unfolding poll_frame_body
body-Polled r s bytes two len small h =
    finish (fill r.frame_len r.encrypted_read s) (fill-keeps r.frame_len r.encrypted_read s)
      (fill-Reached r.frame_len r.encrypted_read s h)
  where
    finish :
        (f : Filled × List ℕ × Inbound)
        → f.1 ++ delivered f.2 ≡ r.encrypted_read ++ delivered s
        → Reached f.0 r.frame_len (length f.1)
        → let r' = record r { encrypted_read = f.1 } in
          let out : Poll (Option (List ℕ)) × Reader × Inbound = elim f.0 [
            | full ↦ (ready (some f.1), new_reader, f.2)
            | waits ↦ (pending, r', f.2)
            | broke ↦ (failed os_error, r', f.2)
            | ended ↦ (failed unexpected_eof, r', f.2)
          ] in
          Polled r s out.0 out.1 out.2
    finish (full, got, s') keeps size = (
      rw (header_written r.read_len got bytes two (size ∙ len)) (
          ap (λ x. r.read_len ++ x) (sym keeps) ∙ sym (append_assoc r.read_len got (delivered s'))),
      refl,
      omega (arith, size, small),
    )
    finish (waits, got, s') keeps less =
        (ap (λ x. r.read_len ++ x) keeps, (omega (arith, two), inr (two, len, small, less)))
    finish (broke, got, s') keeps less = tt
    finish (ended, got, s') keeps less = tt

-- A reader that has begun no frame.
abbrev reading : List ℕ → Reader
reading l = record { read_len = l; frame_len = 0; encrypted_read = [] }

-- The answer of the first half, once the length has been filled.
headed-Polled :
    (l got : List ℕ) (s s' : Inbound)
    → All IsByte got
    → length got ≡ 2
    → got ++ delivered s' ≡ l ++ delivered s
    → let frame_len = from_be_bytes got in
      let r' : Reader = record { read_len = got; frame_len = frame_len; encrypted_read = [] } in
      let out : Poll (Option (List ℕ)) × Reader × Inbound =
        if ltb max_frame_len frame_len
        then (failed invalid_data, record r' { frame_len = 0 }, s')
        else poll_frame_body r' s' in
      Polled (reading l) s out.0 out.1 out.2
headed-Polled l got s s' bytes two keeps =
    elim (Bool-cases (ltb max_frame_len (from_be_bytes got))) [
      | inl large ↦ rw large tt
      | inr small ↦
          let r' : Reader = record {
            read_len = got;
            frame_len = from_be_bytes got;
            encrypted_read = [];
          } in
          rw small (
            Polled_from r' (reading l) s' s keeps (poll_frame_body r' s')
              (body-Polled r' s' bytes two refl (ground (arith, small)) (omega arith)))
    ]
  where
    Polled_from :
        (r r₀ : Reader) (s s₀ : Inbound)
        → unread r s ≡ unread r₀ s₀
        → (out : Poll (Option (List ℕ)) × Reader × Inbound) → Polled r s out.0 out.1 out.2
        → Polled r₀ s₀ out.0 out.1 out.2
    Polled_from r r₀ s s₀ e (pending, r', s') h = (h.0 ∙ e, h.1)
    Polled_from r r₀ s s₀ e (failed error, r', s') h = tt
    Polled_from r r₀ s s₀ e (ready none, r', s') h = (h.0 ∙ e, h.1)
    Polled_from r r₀ s s₀ e (ready (some frame), r', s') h = (sym e ∙ h.0, h.1, h.2)

start-Polled :
    (l : List ℕ) (s : Inbound)
    → All IsByte (l ++ delivered s)
    → length l ≤ 2
    → let out = poll_read_outer_frame (reading l) s in Polled (reading l) s out.0 out.1 out.2
unfolding poll_read_outer_frame
start-Polled l s bytes h = finish (fill 2 l s) (fill-keeps 2 l s) (fill-Reached 2 l s h)
  where
    finish :
        (f : Filled × List ℕ × Inbound)
        → f.1 ++ delivered f.2 ≡ l ++ delivered s
        → Reached f.0 2 (length f.1)
        → let r' = reading f.1 in
          let out : Poll (Option (List ℕ)) × Reader × Inbound = elim f.0 [
            | full ↦
                if ltb max_frame_len (from_be_bytes f.1)
                then (failed invalid_data, r', f.2)
                else poll_frame_body (record r' { frame_len = from_be_bytes f.1 }) f.2
            | waits ↦ (pending, r', f.2)
            | broke ↦ (failed os_error, r', f.2)
            | ended ↦
                (if nat_beq (length f.1) 0 then ready none else failed unexpected_eof, r', f.2)
          ] in
          Polled (reading l) s out.0 out.1 out.2
    finish (full, got, s') keeps two =
        headed-Polled l got s s' (All-prefix IsByte got (delivered s') (rw keeps bytes)) two keeps
    finish (waits, got, s') keeps less = (keeps, (omega (arith, less), inl (refl, refl)))
    finish (broke, got, s') keeps less = tt
    finish (ended, got, s') keeps less = elim (Bool-cases (nat_beq (length got) 0)) [
      | inl none_read ↦ rw none_read (keeps, (omega (arith, less), inl (refl, refl)))
      | inr some_read ↦ rw some_read tt
    ]

pub poll-Polled :
    (r : Reader) (s : Inbound)
    → All IsByte (unread r s)
    → IsReader r
    → let out = poll_read_outer_frame r s in Polled r s out.0 out.1 out.2
unfolding poll_read_outer_frame
poll-Polled r s bytes (fits, inl (none_yet, empty)) =
    let e : r ≡ reading r.read_len =
      λ i. record { read_len = r.read_len; frame_len = none_yet i; encrypted_read = empty i } in
    let all : All IsByte (r.read_len ++ delivered s) = rw empty at bytes in
    rw e (start-Polled r.read_len s all fits)
poll-Polled r s bytes (fits, inr (two, len, small, less)) =
    let begun : nat_beq r.frame_len 0 ≡ false = ground (arith, less) in
    let same : poll_read_outer_frame r s ≡ poll_frame_body r s =
      simp (fill_full 2 r.read_len s two, begun, poll_read_outer_frame) in
    rw same (
      body-Polled r s (All-prefix IsByte r.read_len (r.encrypted_read ++ delivered s) bytes) two len
        small (omega (arith, less)))
