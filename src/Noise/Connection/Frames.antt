-- ===== src/Noise/Connection/Frames.antt =====
-- ghostbro-server/src/noise.rs: read_frame reads what write_frame has written.
use ghostbro.Base.{
  ℕ, suc, ◌≤◌, ◌<◌, ◌≡◌, refl, ap, ◌∙◌, some, List, [], ◌++◌, length, arith, take-append,
  drop-append, length-append, leb, le→leb, le→ltb, lt→ltb, true,
}
use ghostbro.Base.Bytes.{to_be_bytes, from_be_bytes, from_be_bytes-to_be_bytes, length-to_be_bytes}
use ghostbro.Base.Result.{ok, err}
use mathlib.Core.List.{append_assoc}
use ghostbro.Noise.Framing.{max_frame_len, frame_bytes}
use ghostbro.Noise.Connection.{
  Socket, frame_too_long, read_exact, write_all, read_frame_body, read_frame_optional, read_frame,
  write_frame,
}

read_exact-append :
    (n : ℕ) (bytes rest : List ℕ) (c : Socket)
    → length bytes ≡ n
    → c.input ≡ bytes ++ rest
    → read_exact n c ≡ (ok (some bytes), record c { input = rest })
unfolding read_exact
read_exact-append n bytes rest c size e =
    let long : leb n (length (bytes ++ rest)) ≡ true =
      le→leb n (length (bytes ++ rest)) (omega (arith, size, length-append bytes rest)) in
    rw (e, long, take-append n bytes rest size, drop-append n bytes rest size) refl

-- A frame of at most 65535 bytes is written whole while the socket takes two more writes.
write_frame-output :
    (frame : List ℕ) (c : Socket) (left : ℕ)
    → length frame ≤ 65535
    → c.writes ≡ suc (suc left)
    → write_frame frame c
      ≡ (ok tt, record c { output = c.output ++ frame_bytes frame; writes = left })
unfolding write_frame write_all
write_frame-output frame c left small e =
    rw
      (
        le→ltb 65535 (length frame) small,
        e,
        append_assoc c.output (to_be_bytes 2 (length frame)) frame,
      )
      refl

read_frame-frame_bytes :
    (frame rest : List ℕ) (c : Socket)
    → length frame ≤ max_frame_len
    → c.input ≡ frame_bytes frame ++ rest
    → read_frame c ≡ (ok frame, record c { input = rest })
unfolding read_frame read_frame_optional read_frame_body
read_frame-frame_bytes frame rest c small e =
    let header : List ℕ = to_be_bytes 2 (length frame) in
    let whole : c.input ≡ header ++ (frame ++ rest) = e ∙ append_assoc header frame rest in
    let c' : Socket = record c { input = frame ++ rest } in
    let len : from_be_bytes header ≡ length frame =
      from_be_bytes-to_be_bytes 2 (length frame) (omega (arith, small)) in
    rw
      (
        read_exact-append 2 header (frame ++ rest) c (length-to_be_bytes 2 (length frame)) whole,
        len,
        le→ltb max_frame_len (length frame) small,
        read_exact-append (length frame) frame rest c' refl refl,
      )
      refl

read_frame-refused :
    (frame rest : List ℕ) (c : Socket)
    → length frame ≤ 65535
    → max_frame_len < length frame
    → c.input ≡ frame_bytes frame ++ rest
    → (read_frame c).0 ≡ err frame_too_long
unfolding read_frame read_frame_optional read_frame_body
read_frame-refused frame rest c small large e =
    let header : List ℕ = to_be_bytes 2 (length frame) in
    let whole : c.input ≡ header ++ (frame ++ rest) = e ∙ append_assoc header frame rest in
    let len : from_be_bytes header ≡ length frame =
      from_be_bytes-to_be_bytes 2 (length frame) (omega (arith, small)) in
    rw
      (
        read_exact-append 2 header (frame ++ rest) c (length-to_be_bytes 2 (length frame)) whole,
        len,
        lt→ltb max_frame_len (length frame) large,
      )
      refl

-- A frame of at most 65535 bytes, written while the socket takes two more writes, and what its peer makes
-- of it: up to MAX_FRAME_LEN bytes it is read back, and the bytes behind it stay; above that the peer
-- refuses it.
pub read_frame-write_frame :
    (frame rest : List ℕ) (c peer : Socket) (left : ℕ)
    → length frame ≤ 65535
    → c.writes ≡ suc (suc left)
    → c.output ≡ []
    → peer.input ≡ (write_frame frame c).1.output ++ rest
    → ((write_frame frame c).0 ≡ ok tt)
      × (length frame ≤ max_frame_len → read_frame peer ≡ (ok frame, record peer { input = rest }))
      × (max_frame_len < length frame → (read_frame peer).0 ≡ err frame_too_long)
read_frame-write_frame frame rest c peer left small more fresh sent =
    let written = write_frame-output frame c left small more in
    let bytes : peer.input ≡ frame_bytes frame ++ rest =
      sent
      ∙ ap (λ x. x.1.output ++ rest) written
      ∙ ap (λ x. (x ++ frame_bytes frame) ++ rest) fresh in
    (
      ap (λ x. x.0) written,
      λ fits. read_frame-frame_bytes frame rest peer fits bytes,
      λ large. read_frame-refused frame rest peer small large bytes,
    )
