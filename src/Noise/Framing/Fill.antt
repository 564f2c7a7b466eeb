-- ===== src/Noise/Framing/Fill.antt =====
-- ghostbro-server/src/noise.rs: the loops that fill a buffer lose no byte, whatever the chunks.
use ghostbro.Base.{
  ℕ, ◌-◌, ◌≤◌, ◌<◌, ◌≡◌, refl, sym, ap, ◌∙◌, List, [], ◌∷◌, ◌++◌, length, take, drop, arith,
  length-append, length-take, take-append-drop, Bool-cases, inl, inr, true, leb, le→leb, leb→le,
  nat_beq, if◌then◌else◌,
}
use mathlib.Core.List.{append_assoc}
use ghostbro.Noise.Socket.{quiet, broken, chunk, Inbound, delivered}
use ghostbro.Noise.Framing.{Filled, full, waits, broke, ended, fill}

-- What has been filled is as long as it should be, or the loop was left early.
abbrev pub Reached : Filled → ℕ → ℕ → Type 0
Reached full want n = n ≡ want
Reached waits want n = n < want
Reached broke want n = n < want
Reached ended want n = n < want

empty : (bs : List ℕ) → nat_beq (length bs) 0 ≡ true → bs ≡ []
empty [] h = refl
empty (b ∷ bs) h = absurd (ground (arith, h))

halves :
    (got bs rest : List ℕ) (n : ℕ) → (got ++ take n bs) ++ (drop n bs ++ rest) ≡ got ++ (bs ++ rest)
halves got bs rest n =
    append_assoc got (take n bs) (drop n bs ++ rest)
    ∙ ap (λ x. got ++ x)
        (sym (append_assoc (take n bs) (drop n bs) rest)
          ∙ ap (λ x. x ++ rest) (take-append-drop n bs))

-- The bytes filled and the bytes still to come are those of before.
pub fill-keeps :
    (want : ℕ) (got : List ℕ) (s : Inbound)
    → (fill want got s).1 ++ delivered (fill want got s).2 ≡ got ++ delivered s
unfolding fill delivered
fill-keeps want got [] = ground arith
fill-keeps want got (quiet ∷ s) = ground arith
fill-keeps want got (broken ∷ s) = ground arith
fill-keeps want got (chunk bs ∷ s) = elim (Bool-cases (leb want (length got))) [
  | inl done ↦ rw done
  | inr more ↦ elim (Bool-cases (nat_beq (length bs) 0)) [
    | inl none_read ↦ rw (more, none_read, empty bs none_read)
    | inr some_read ↦ elim (Bool-cases (leb (length bs) (want - length got))) [
      | inl fits ↦
          rw (more, some_read, fits)
            (fill-keeps want (got ++ bs) s ∙ append_assoc got bs (delivered s))
      | inr over ↦ rw (more, some_read, over) (halves got bs (delivered s) (want - length got))
    ]
  ]
]

stop :
    (want : ℕ) (got : List ℕ) (s t : Inbound) (early : Filled)
    → length got ≤ want
    → (length got < want → Reached early want (length got))
    → let r : Filled × List ℕ × Inbound =
        if leb want (length got) then (full, got, s) else (early, got, t) in
      Reached r.0 want (length r.1)
stop want got s t early h left = elim (Bool-cases (leb want (length got))) [
  | inl done ↦ rw done (omega (arith, leb→le want (length got) done))
  | inr more ↦ rw more (left (ground (arith, more)))
]

pub fill-Reached :
    (want : ℕ) (got : List ℕ) (s : Inbound)
    → length got ≤ want
    → Reached (fill want got s).0 want (length (fill want got s).1)
unfolding fill
fill-Reached want got [] h = stop want got [] [] waits h (λ lt. lt)
fill-Reached want got (quiet ∷ s) h = stop want got (quiet ∷ s) s waits h (λ lt. lt)
fill-Reached want got (broken ∷ s) h = stop want got (broken ∷ s) s broke h (λ lt. lt)
fill-Reached want got (chunk bs ∷ s) h = elim (Bool-cases (leb want (length got))) [
  | inl done ↦ rw done (omega (arith, leb→le want (length got) done))
  | inr more ↦ elim (Bool-cases (nat_beq (length bs) 0)) [
    | inl none_read ↦ rw (more, none_read) (ground (arith, more))
    | inr some_read ↦ elim (Bool-cases (leb (length bs) (want - length got))) [
      | inl fits ↦
          rw (more, some_read, fits)
            (fill-Reached want (got ++ bs) s (ground (arith, fits, h, length-append got bs)))
      | inr over ↦
          rw (more, some_read, over)
            (ground (
              arith,
              over,
              length-append got (take (want - length got) bs),
              length-take (want - length got) bs,
            ))
    ]
  ]
]

-- A buffer that is full is left as it is.
pub fill_full :
    (want : ℕ) (got : List ℕ) (s : Inbound) → length got ≡ want → fill want got s ≡ (full, got, s)
unfolding fill
fill_full want got [] h = rw (le→leb want (length got) (omega (arith, h)))
fill_full want got (quiet ∷ s) h = rw (le→leb want (length got) (omega (arith, h)))
fill_full want got (broken ∷ s) h = rw (le→leb want (length got) (omega (arith, h)))
fill_full want got (chunk bs ∷ s) h = rw (le→leb want (length got) (omega (arith, h)))
