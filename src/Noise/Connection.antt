-- ===== src/Noise/Connection.antt =====
-- ghostbro-server/src/noise.rs: the blocking frames of the handshake and of the first request.
pub mod Frames
use ghostbro.Base.{
  ℕ, zero, suc, ◌+◌, Option, none, some, List, [], ◌∷◌, ◌++◌, Bool, true, false, if◌then◌else◌, ltb,
  leb, nat_beq, length, take, drop, bytes_beq, nat_eq, ◌&&◌, not,
}
use ghostbro.Base.Bytes.{to_be_bytes, from_be_bytes}
use ghostbro.Base.Dict.{lookup, remove}
use ghostbro.Base.Result.{Result, ok, err}
use ghostbro.Control.{Mirror, AllowedSource}
use ghostbro.Packet.{KeyId}
use ghostbro.Noise.Framing.{max_frame_len}
use ghostbro.Noise.Sessions.{SessionCounts, acquire_session, release}
use ghostbro.Noise.Stream.{Transport, Stream, new}

pub data Refusal : Type 0 where
  not_ipv4 no_allow_entry allow_expired no_responder handshake_failed no_remote_static : Refusal
  wrong_remote_static session_limit no_transport decrypt_failed encrypt_failed : Refusal
  frame_too_long closed read_failed write_failed : Refusal

-- A socket: the bytes that the peer sends before it closes the stream (or resets it), the bytes written,
-- and how many more writes succeed. A write that fails has written nothing.
pub record Socket : Type 0 where
  pub input : List ℕ
  pub is_reset : Bool
  pub output : List ℕ
  pub writes : ℕ

abbrev pub Task : Type 0 → Type 0
Task A = Socket → Result Refusal A × Socket

abbrev pub return : {A : Type 0} → A → Task A
return a c = (ok a, c)

abbrev pub fail : {A : Type 0} → Refusal → Task A
fail e c = (err e, c)

abbrev pub then_run :
    {A B : Type 0} → Result Refusal A × Socket → (A → Task B) → Result Refusal B × Socket
then_run (err e, c) next = (err e, c)
then_run (ok a, c) next = next a c

infixl 5 ◌>>=◌ ◌>>◌
abbrev pub ◌>>=◌ : {A B : Type 0} → Task A → (A → Task B) → Task B
◌>>=◌ first next c = then_run (first c) next

abbrev pub ◌>>◌ : {A B : Type 0} → Task A → Task B → Task B
first >> second = first >>= λ _. second

-- `read_exact`; `none` is the end of the stream before that many bytes.
unfoldable pub read_exact : ℕ → Task (Option (List ℕ))
read_exact n c =
    if leb n (length c.input)
    then (ok (some (take n c.input)), record c { input = drop n c.input })
    else if c.is_reset
    then (err read_failed, record c { input = [] })
    else (ok none, record c { input = [] })

unfoldable pub write_all : List ℕ → Task (Unit {0})
write_all bytes c = elim c.writes [
  | zero ↦ (err write_failed, c)
  | suc left ↦ (ok tt, record c { output = c.output ++ bytes; writes = left })
]

-- The frame, once its length has been read.
unfoldable pub read_frame_body : ℕ → Task (Option (List ℕ))
read_frame_body len =
    if ltb max_frame_len len
    then fail frame_too_long
    else read_exact len >>= λ frame. elim frame [
      | none ↦ fail read_failed
      | some bytes ↦ return (some bytes)
    ]

unfoldable pub read_frame_optional : Task (Option (List ℕ))
read_frame_optional = read_exact 2 >>= λ header. elim header [
  | none ↦ return none
  | some len ↦ read_frame_body (from_be_bytes len)
]

unfoldable pub read_frame : Task (List ℕ)
read_frame =
    read_frame_optional >>= λ frame. elim frame [ none ↦ fail closed | some bytes ↦ return bytes ]

unfoldable pub write_frame : List ℕ → Task (Unit {0})
write_frame frame =
    if ltb 65535 (length frame)
    then fail frame_too_long
    else write_all (to_be_bytes 2 (length frame)) >> write_all frame
