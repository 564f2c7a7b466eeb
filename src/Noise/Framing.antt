-- ===== src/Noise/Framing.antt =====
-- ghostbro-server/src/noise.rs: NoiseFramedStream::poll_read_outer_frame. A buffer with a position is
-- the list of the bytes that it has been filled with, beside the length that it is to have.
pub mod Fill
pub mod Chunks
pub mod Order
use ghostbro.Base.{
  ℕ, ◌+◌, ◌-◌, ◌*◌, List, [], ◌∷◌, ◌++◌, Option, none, some, if◌then◌else◌, ltb, leb, nat_beq,
  length, take, drop, ◌&&◌,
}
use ghostbro.Base.Bytes.{to_be_bytes, from_be_bytes}
use ghostbro.Noise.Socket.{
  Poll, pending, failed, ready, unexpected_eof, invalid_data, os_error, Signal, quiet, broken,
  chunk, Inbound,
}

abbrev pub max_frame_len : ℕ
max_frame_len = 16384

abbrev pub noise_tag_len : ℕ
noise_tag_len = 16

-- `read_len[..read_len_pos]`, `encrypted_read.len()`, `encrypted_read[..encrypted_read_pos]`
pub record Reader : Type 0 where
  pub read_len : List ℕ
  pub frame_len : ℕ
  pub encrypted_read : List ℕ

abbrev pub new_reader : Reader
new_reader = record { read_len = []; frame_len = 0; encrypted_read = [] }

-- How a loop that fills a buffer is left.
pub data Filled : Type 0 where
  full waits broke ended : Filled

-- `while pos < buf.len()`: the two loops of the code. A chunk with more bytes than there is room for
-- fills the buffer, and the rest of it is what the next read finds.
unfoldable pub fill : ℕ → List ℕ → Inbound → Filled × List ℕ × Inbound
fill want got [] = if leb want (length got) then (full, got, []) else (waits, got, [])
fill want got (quiet ∷ s) =
    if leb want (length got) then (full, got, quiet ∷ s) else (waits, got, s)
fill want got (broken ∷ s) =
    if leb want (length got) then (full, got, broken ∷ s) else (broke, got, s)
fill want got (chunk bs ∷ s) =
    let room = want - length got in
    let rest = fill want (got ++ bs) s in
    if leb want (length got)
    then (full, got, chunk bs ∷ s)
    else if nat_beq (length bs) 0
    then (ended, got, s)
    else if leb (length bs) room
    then rest
    else (full, got ++ take room bs, chunk (drop room bs) ∷ s)

-- The second half: the frame, once its length is known.
unfoldable pub poll_frame_body : Reader → Inbound → Poll (Option (List ℕ)) × Reader × Inbound
poll_frame_body r s =
    let (outcome, got, s') = fill r.frame_len r.encrypted_read s in
    let r' = record r { encrypted_read = got } in
    elim outcome [
      | full ↦ (ready (some got), new_reader, s')
      | waits ↦ (pending, r', s')
      | broke ↦ (failed os_error, r', s')
      | ended ↦ (failed unexpected_eof, r', s')
    ]

unfoldable pub poll_read_outer_frame : Reader → Inbound → Poll (Option (List ℕ)) × Reader × Inbound
poll_read_outer_frame r s =
    let (outcome, got, s') = fill 2 r.read_len s in
    let r' = record r { read_len = got } in
    let frame_len = if nat_beq r.frame_len 0 then from_be_bytes got else r.frame_len in
    elim outcome [
      | full ↦
          if nat_beq r.frame_len 0 && ltb max_frame_len frame_len
          then (failed invalid_data, r', s')
          else poll_frame_body (record r' { frame_len = frame_len }) s'
      | waits ↦ (pending, r', s')
      | broke ↦ (failed os_error, r', s')
      | ended ↦ (if nat_beq (length got) 0 then ready none else failed unexpected_eof, r', s')
    ]

-- The bytes of a frame on the wire: `frame_len.to_be_bytes()`, then the frame.
abbrev pub frame_bytes : List ℕ → List ℕ
frame_bytes frame = to_be_bytes 2 (length frame) ++ frame
