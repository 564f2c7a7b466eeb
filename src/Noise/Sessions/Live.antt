-- ===== src/Noise/Sessions/Live.antt =====
-- ghostbro-server/src/noise.rs: the counts are those of the connections that are open.
use ghostbro.Base.{
  ℕ, suc, ◌-◌, ◌≤◌, ◌<◌, ◌≡◌, inl, inr, refl, sym, ap, ◌∙◌, Option, none, some, List, [], ◌∷◌, Bool,
  true, false, if◌then◌else◌, not, ◌&&◌, ◌==◌, bytes_eq, bytes_beq_iff, bytes_beq, nat_beq, arith,
  Bool-cases,
}
use ghostbro.Base.Dict.{lookup, insert, remove, lookup-insert, lookup-remove}
use ghostbro.Packet.{KeyId}
use ghostbro.Noise.Sessions.{SessionCounts, or_zero, count_of, at_limit, acquire_session, release}

-- The slots that are held.
abbrev pub Slots : Type 0
Slots = List KeyId

abbrev pub held : KeyId → Slots → ℕ
held key_id [] = 0
held key_id (k ∷ slots) = if k == key_id then suc (held key_id slots) else held key_id slots

-- The slots without one of a key.
abbrev pub dropped : KeyId → Slots → Slots
dropped key_id [] = []
dropped key_id (k ∷ slots) =
    let rest = dropped key_id slots in if k == key_id then slots else k ∷ rest

-- A connection asks for a slot, or one that has a slot is closed.
pub data Session : Type 0 where
  opens : KeyId → Option ℕ → Session
  closes : KeyId → Session

-- The counts and the slots. Only a slot that is held is dropped.
unfoldable pub step_session : Session → SessionCounts × Slots → SessionCounts × Slots
step_session (opens key_id limit) (sessions, slots) =
    let (granted, sessions') = acquire_session sessions key_id limit in
    (sessions', if granted then key_id ∷ slots else slots)
step_session (closes key_id) (sessions, slots) =
    if nat_beq (held key_id slots) 0
    then (sessions, slots)
    else (release key_id sessions, dropped key_id slots)

unfoldable pub after_sessions : List Session → SessionCounts × Slots → SessionCounts × Slots
after_sessions [] s = s
after_sessions (e ∷ es) s = after_sessions es (step_session e s)

-- Every count is that of the slots held.
abbrev pub IsCounted : SessionCounts → Slots → Type 0
IsCounted sessions slots = (k : KeyId) → count_of k sessions ≡ held k slots

held-dropped :
    (k j : KeyId) (slots : Slots)
    → held j (dropped k slots) ≡ (if k == j then held j slots - 1 else held j slots)
held-dropped k j [] = ground arith
held-dropped k j (i ∷ slots) =
    ground (arith, bytes_beq_iff k j, bytes_beq_iff i j, bytes_beq_iff i k, held-dropped k j slots)

or_zero-if :
    (test : Bool) (a b : Option ℕ)
    → or_zero (if test then a else b) ≡ (if test then or_zero a else or_zero b)
or_zero-if true a b = refl
or_zero-if false a b = refl

count_of-insert :
    (k j : KeyId) (n : ℕ) (sessions : SessionCounts)
    → count_of j (insert k n sessions) ≡ (if k == j then n else count_of j sessions)
count_of-insert k j n sessions =
    ap or_zero (lookup-insert k j n sessions) ∙ or_zero-if (k == j) (some n) (lookup j sessions)

count_of-remove :
    (k j : KeyId) (sessions : SessionCounts)
    → count_of j (remove k sessions) ≡ (if k == j then 0 else count_of j sessions)
count_of-remove k j sessions =
    ap or_zero (lookup-remove k j sessions) ∙ or_zero-if (k == j) none (lookup j sessions)

pub count_of-acquire :
    (k j : KeyId) (limit : Option ℕ) (sessions : SessionCounts)
    → let granted = not (at_limit (count_of k sessions) limit) in
      (acquire_session sessions k limit).0 ≡ granted
      × count_of j (acquire_session sessions k limit).1
        ≡ (if k == j && granted then suc (count_of j sessions) else count_of j sessions)
unfolding acquire_session
count_of-acquire k j limit sessions = elim (Bool-cases (at_limit (count_of k sessions) limit)) [
  | inl full ↦
      rw full (
        refl,
        ground (arith, bytes_beq_iff k j, count_of-insert k j (count_of k sessions) sessions),
      )
  | inr free ↦ rw free (
    refl,
    ground (arith, bytes_beq_iff k j, count_of-insert k j (suc (count_of k sessions)) sessions),
  )
]

pub count_of-release :
    (k j : KeyId) (sessions : SessionCounts)
    → count_of j (release k sessions)
      ≡ (if k == j then count_of j sessions - 1 else count_of j sessions)
unfolding release
count_of-release k j sessions = found (lookup k sessions) refl
  where
    found :
        (o : Option ℕ)
        → lookup k sessions ≡ o
        → ◌≡◌ {A = ℕ}
            (count_of j (elim o [
              | none ↦ sessions
              | some count ↦
                  if nat_beq (count - 1) 0 then remove k sessions else insert k (count - 1) sessions
            ]))
            (if k == j then count_of j sessions - 1 else count_of j sessions)
    found none q = elim (Bool-cases (bytes_beq k j)) [
      | inl same ↦
          let e : k ≡ j = (bytes_beq_iff k j).0 same in
          let zero_left : count_of j sessions ≡ 0 =
            ap (λ x. or_zero (lookup x sessions)) (sym e) ∙ ap or_zero q in
          rw same (omega (arith, zero_left))
      | inr other ↦ rw other refl
    ]
    found (some count) q =
        let had : k ≡ j → count_of j sessions ≡ count =
          λ e. ap (λ x. or_zero (lookup x sessions)) (sym e) ∙ ap or_zero q in
        elim (Bool-cases (nat_beq (count - 1) 0)) [
          | inl last ↦
              rw last (ground (arith, last, bytes_beq_iff k j, had, count_of-remove k j sessions))
          | inr others ↦
              rw others
                (ground (arith, bytes_beq_iff k j, had, count_of-insert k j (count - 1) sessions))
        ]

opened-IsCounted :
    (k : KeyId) (limit : Option ℕ) (sessions : SessionCounts) (slots : Slots)
    → IsCounted sessions slots
    → let out = acquire_session sessions k limit in
      IsCounted out.1 (if out.0 then k ∷ slots else slots)
opened-IsCounted k limit sessions slots counted j =
    let granted = not (at_limit (count_of k sessions) limit) in
    let (answer, counts) = count_of-acquire k j limit sessions in
    rw (answer, counts) (ground (arith, counted j, bytes_beq_iff k j))

closed-IsCounted :
    (k : KeyId) (sessions : SessionCounts) (slots : Slots)
    → IsCounted sessions slots
    → IsCounted (release k sessions) (dropped k slots)
closed-IsCounted k sessions slots counted j =
    rw (count_of-release k j sessions, held-dropped k j slots, counted j) refl

step_session-IsCounted :
    (e : Session) (s : SessionCounts × Slots)
    → IsCounted s.0 s.1
    → IsCounted (step_session e s).0 (step_session e s).1
unfolding step_session
step_session-IsCounted (opens k limit) (sessions, slots) counted =
    opened-IsCounted k limit sessions slots counted
step_session-IsCounted (closes k) (sessions, slots) counted =
    elim (Bool-cases (nat_beq (held k slots) 0)) [
      | inl free ↦ simp (free) counted
      | inr taken ↦ simp (taken) (closed-IsCounted k sessions slots counted)
    ]

-- Whatever connections open and close, the count of every key is the number of its slots that are held.
pub after_sessions-IsCounted :
    (es : List Session) (s : SessionCounts × Slots)
    → IsCounted s.0 s.1
    → let out = after_sessions es s in IsCounted out.0 out.1
unfolding after_sessions
after_sessions-IsCounted [] s counted = counted
after_sessions-IsCounted (e ∷ es) s counted =
    after_sessions-IsCounted es (step_session e s) (step_session-IsCounted e s counted)

-- Every connection of a key asks with one limit.
abbrev pub HasLimit : KeyId → ℕ → List Session → Type 0
HasLimit key_id limit [] = Unit {0}
HasLimit key_id limit (opens k l ∷ es) = (k ≡ key_id → l ≡ some limit) × HasLimit key_id limit es
HasLimit key_id limit (closes k ∷ es) = HasLimit key_id limit es

opened_below :
    (key_id k : KeyId) (limit : ℕ) (l : Option ℕ) (sessions : SessionCounts) (slots : Slots)
    → 0 < limit
    → (k ≡ key_id → l ≡ some limit)
    → IsCounted sessions slots
    → held key_id slots ≤ limit
    → held key_id (if (acquire_session sessions k l).0 then k ∷ slots else slots) ≤ limit
opened_below key_id k limit l sessions slots pos same counted below =
    let (answer, counts) = count_of-acquire k key_id l sessions in
    rw answer (elim (Bool-cases (bytes_beq k key_id)) [
      | inl mine ↦
          let e : k ≡ key_id = (bytes_beq_iff k key_id).0 mine in
          let has : count_of k sessions ≡ held key_id slots =
            ap (λ x. count_of x sessions) e ∙ counted key_id in
          rw (same e, has) (ground (arith, mine, pos, below))
      | inr other ↦ ground (arith, other, below)
    ])

step_session-at_most :
    (e : Session) (s : SessionCounts × Slots) (key_id : KeyId) (limit : ℕ)
    → IsCounted s.0 s.1
    → 0 < limit
    → HasLimit key_id limit (e ∷ [])
    → held key_id s.1 ≤ limit
    → held key_id (step_session e s).1 ≤ limit
unfolding step_session
step_session-at_most (opens k l) (sessions, slots) key_id limit counted pos same below =
    opened_below key_id k limit l sessions slots pos same.0 counted below
step_session-at_most (closes k) (sessions, slots) key_id limit counted pos same below =
    elim (Bool-cases (nat_beq (held k slots) 0)) [
      | inl free ↦ simp (free) below
      | inr taken ↦ simp (taken) (ground (arith, held-dropped k key_id slots, below))
    ]

-- Where all connections of a key ask with one limit that is not 0, no more than that many of them are open
-- at a time, whatever connections open and close.
pub after_sessions-at_most :
    (es : List Session) (s : SessionCounts × Slots) (key_id : KeyId) (limit : ℕ)
    → IsCounted s.0 s.1
    → 0 < limit
    → HasLimit key_id limit es
    → held key_id s.1 ≤ limit
    → held key_id (after_sessions es s).1 ≤ limit
unfolding after_sessions
after_sessions-at_most [] s key_id limit counted pos same below = below
after_sessions-at_most (opens k l ∷ es) s key_id limit counted pos same below =
    after_sessions-at_most es (step_session (opens k l) s) key_id limit
      (step_session-IsCounted (opens k l) s counted) pos same.1
      (step_session-at_most (opens k l) s key_id limit counted pos (same.0, tt) below)
after_sessions-at_most (closes k ∷ es) s key_id limit counted pos same below =
    after_sessions-at_most es (step_session (closes k) s) key_id limit
      (step_session-IsCounted (closes k) s counted) pos same
      (step_session-at_most (closes k) s key_id limit counted pos tt below)
