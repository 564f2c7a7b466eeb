-- ===== src/Noise/Socket.antt =====
-- What the code sees of a TCP stream (tokio::net::TcpStream), polled: a schedule of what each read
-- finds and of how much each write is let take.
use ghostbro.Base.{ℕ, List, [], ◌∷◌, ◌++◌}

-- Why a poll fails.
pub data IoError : Type 0 where
  unexpected_eof invalid_data write_zero os_error : IoError

pub data Poll {ℓ} (A : Type ℓ) : Type ℓ where
  pending : Poll A
  failed : IoError → Poll A
  ready : A → Poll A

-- A read finds nothing yet, an error, or bytes; no bytes at all is the end of the stream.
pub data Signal : Type 0 where
  quiet : Signal
  broken : Signal
  chunk : List ℕ → Signal

abbrev pub Inbound : Type 0
Inbound = List Signal

-- The bytes that are still to come.
unfoldable pub delivered : Inbound → List ℕ
delivered [] = []
delivered (quiet ∷ s) = delivered s
delivered (broken ∷ s) = delivered s
delivered (chunk bs ∷ s) = bs ++ delivered s

-- A write is let take some bytes, has to wait, or fails.
pub data Room : Type 0 where
  stalls : Room
  refuses : Room
  takes : ℕ → Room

abbrev pub Outbound : Type 0
Outbound = List Room
