-- ===== src/Gate/Memory.antt =====
-- ghostbro-ebpf/src/main.rs: the checked reads. A read inside a range that `has_bytes` found is made,
-- and nothing outside the frame is ever looked at.
use ghostbro.Base.{
  ℕ, ◌+◌, ◌-◌, ◌*◌, ◌%◌, ◌^◌, ◌≤◌, ◌<◌, ◌≡◌, ap, some, true, arith, ltb, lt→ltb, bit_or,
}
use ghostbro.Base.Bits.{bit_or-shifted}
use ghostbro.Gate.{
  Frame, Helpers, AllowEntry, RateState, State, has_bytes, read_u8, read_be_u16, read_be_u32,
  handle_tcp, handle_udp, dispatch, try_ghostbro_xdp, ghostbro_xdp,
}
use ghostbro.LruMap.{LruMap}

-- A frame ends below the last address.
abbrev pub InMemory : Frame → Type 0
InMemory f = f.end < 2 ^ 64 - 1

pub has_bytes-le :
    (f : Frame) (offset len : ℕ)
    → InMemory f
    → has_bytes f offset len ≡ true
    → f.start + offset + len ≤ f.end
unfolding has_bytes
has_bytes-le f offset len h e = ground arith

pub le-has_bytes :
    (f : Frame) (offset len : ℕ)
    → InMemory f
    → f.start + offset + len ≤ f.end
    → has_bytes f offset len ≡ true
unfolding has_bytes
le-has_bytes f offset len h e = ground arith

pub read_u8_in :
    (f : Frame) (offset : ℕ)
    → InMemory f
    → f.start + offset < f.end
    → read_u8 f offset ≡ some (f.byte (f.start + offset))
unfolding read_u8
read_u8_in f offset h lt = ground arith

-- Two bytes that are there are read as a big-endian number.
pub read_be_u16_in :
    (f : Frame) (offset : ℕ)
    → InMemory f
    → f.start + offset + 2 ≤ f.end
    → f.byte (f.start + offset) < 256
    → f.byte (f.start + offset + 1) < 256
    → read_be_u16 f offset ≡ some (f.byte (f.start + offset) * 256 + f.byte (f.start + offset + 1))
unfolding read_be_u16
read_be_u16_in f offset h le hi lo =
    let first = read_u8_in f offset h (omega arith) in
    let second = read_u8_in f (offset + 1) h (omega arith) in
    let next : ltb (offset + 1) (2 ^ 64) ≡ true = lt→ltb (offset + 1) (2 ^ 64) (omega arith) in
    let place : f.start + (offset + 1) ≡ f.start + offset + 1 = omega arith in
    let high = f.byte (f.start + offset) in
    let shifted : high * 2 ^ 8 % 2 ^ 16 ≡ high * 2 ^ 8 = omega arith in
    rw (first, next, second, place, shifted)
      (ap some (bit_or-shifted 8 high (f.byte (f.start + offset + 1)) lo))

-- Two bytes that are there are read, whatever they hold.
pub read_be_u16_succeeds :
    (f : Frame) (offset : ℕ)
    → InMemory f
    → f.start + offset + 2 ≤ f.end
    → (n : ℕ) × (read_be_u16 f offset ≡ some n)
unfolding read_be_u16
read_be_u16_succeeds f offset h le =
    let first = read_u8_in f offset h (omega arith) in
    let second = read_u8_in f (offset + 1) h (omega arith) in
    let next : ltb (offset + 1) (2 ^ 64) ≡ true = lt→ltb (offset + 1) (2 ^ 64) (omega arith) in
    (
      bit_or (f.byte (f.start + offset) * 2 ^ 8 % 2 ^ 16) (f.byte (f.start + (offset + 1))),
      rw (first, next, second),
    )

-- Two frames at the same place that hold the same bytes; the memory around them may differ.
pub record Agree (f g : Frame) : Type 0 where
  pub same_start : f.start ≡ g.start
  pub same_end : f.end ≡ g.end
  pub same_bytes : (a : ℕ) → f.start ≤ a → a < f.end → f.byte a ≡ g.byte a

module _ (f g : Frame) (agree : Agree f g) where
  has_bytes-Agree : (offset len : ℕ) → has_bytes f offset len ≡ has_bytes g offset len
  unfolding has_bytes
  has_bytes-Agree offset len = rw (agree.same_start, agree.same_end)

  read_u8-Agree : (offset : ℕ) → read_u8 f offset ≡ read_u8 g offset
  unfolding read_u8
  read_u8-Agree offset =
      ground (arith, agree.same_start, agree.same_end, agree.same_bytes (f.start + offset))

  read_be_u16-Agree : (offset : ℕ) → read_be_u16 f offset ≡ read_be_u16 g offset
  unfolding read_be_u16
  read_be_u16-Agree offset = simp read_u8-Agree

  read_be_u32-Agree : (offset : ℕ) → read_be_u32 f offset ≡ read_be_u32 g offset
  unfolding read_be_u32
  read_be_u32-Agree offset = simp read_u8-Agree

  module _ (am : LruMap AllowEntry) (rm : LruMap RateState) (h : Helpers) where
    handle_tcp-Agree :
        (at src port : ℕ) (s : State am rm)
        → handle_tcp am rm h f at src port s ≡ handle_tcp am rm h g at src port s
    unfolding handle_tcp
    handle_tcp-Agree at src port s = simp (has_bytes-Agree, read_be_u16-Agree)

    handle_udp-Agree :
        (at src port limit : ℕ) (s : State am rm)
        → handle_udp am rm h f at src port limit s ≡ handle_udp am rm h g at src port limit s
    unfolding handle_udp
    handle_udp-Agree at src port limit s = simp (has_bytes-Agree, read_be_u16-Agree)

    dispatch-Agree :
        (proto at src : ℕ) (s : State am rm)
        → dispatch am rm h f proto at src s ≡ dispatch am rm h g proto at src s
    unfolding dispatch
    dispatch-Agree proto at src s = simp (handle_tcp-Agree, handle_udp-Agree)

    -- The verdict and the maps depend on no byte outside the frame.
    pub ghostbro_xdp-Agree : (s : State am rm) → ghostbro_xdp am rm h f s ≡ ghostbro_xdp am rm h g s
    unfolding ghostbro_xdp try_ghostbro_xdp
    ghostbro_xdp-Agree s =
        simp (has_bytes-Agree, read_u8-Agree, read_be_u16-Agree, read_be_u32-Agree, dispatch-Agree)
