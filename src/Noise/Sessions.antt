-- ===== src/Noise/Sessions.antt =====
-- ghostbro-server/src/noise.rs: SessionCounts, acquire_session and SessionSlot's Drop.
pub mod Live
use ghostbro.Base.{
  ℕ, zero, suc, ◌+◌, ◌-◌, Option, none, some, List, [], ◌∷◌, ◌++◌, Bool, true, false, ◌&&◌,
  if◌then◌else◌, ltb, leb, nat_beq, ◌==◌, bytes_eq,
}
use ghostbro.Base.Dict.{Dict, lookup, insert, remove}
use ghostbro.Packet.{KeyId}

abbrev pub SessionCounts : Type 0
SessionCounts = Dict KeyId ℕ

abbrev pub or_zero : Option ℕ → ℕ
or_zero none = 0
or_zero (some count) = count

abbrev pub count_of : KeyId → SessionCounts → ℕ
count_of key_id sessions = or_zero (lookup key_id sessions)

-- `max > 0 && *count >= u32::from(max)`
abbrev pub at_limit : ℕ → Option ℕ → Bool
at_limit count none = false
at_limit count (some limit) = ltb 0 limit && leb limit count

-- The entry is made before the test, and stays at 0 when a slot is refused.
unfoldable pub acquire_session : SessionCounts → KeyId → Option ℕ → Bool × SessionCounts
acquire_session sessions key_id limit =
    let count = count_of key_id sessions in
    if at_limit count limit
    then (false, insert key_id count sessions)
    else (true, insert key_id (suc count) sessions)

-- `SessionSlot::drop`
unfoldable pub release : KeyId → SessionCounts → SessionCounts
release key_id sessions = elim (lookup key_id sessions) [
  | none ↦ sessions
  | some count ↦
      let left = count - 1 in
      if nat_beq left 0 then remove key_id sessions else insert key_id left sessions
]
