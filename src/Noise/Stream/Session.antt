-- ===== src/Noise/Stream/Session.antt =====
-- The documented behaviour of a Noise session (snow::TransportState): what one end encrypts, the other
-- end decrypts, message by message.
use ghostbro.Base.{ℕ, ◌+◌, ◌≡◌, refl, Option, none, some, List, [], ◌∷◌, ◌++◌, length, All}
use ghostbro.Base.{sym, ◌∙◌, ap}
use mathlib.Core.List.{append_assoc}
use mathlib.Core.Option.{some-injective}
use ghostbro.Base.Bytes.{IsByte}
use ghostbro.Noise.Framing.{noise_tag_len}
use ghostbro.Noise.Stream.{Transport}

pub record TransportLaws (t : Transport) : Type 1 where
  -- What the first end sends next is what the second end awaits.
  pub InStep : t.State → t.State → Type 0
  pub decrypts :
      (w r : t.State) (m : List ℕ) (c : List ℕ) (w' : t.State)
      → InStep w r
      → All IsByte m
      → t.write_message w m ≡ some (c, w')
      → (r' : t.State) × (t.read_message r c ≡ some (m, r'))
        × InStep w' r'
        × (length c ≡ length m + noise_tag_len)
        × All IsByte c

module _ (t : Transport) where
  abbrev OpenedAll : Type 0
  OpenedAll = Option (List ℕ × t.State)

  abbrev put_before : List ℕ → OpenedAll → OpenedAll
  put_before m none = none
  put_before m (some (ms, r)) = some (m ++ ms, r)

  -- The messages of a list of frames, one after the other.
  unfoldable pub open_all : t.State → List (List ℕ) → Option (List ℕ × t.State)
  open_all r [] = some ([], r)
  open_all r (frame ∷ frames) = elim (t.read_message r frame) [
    | none ↦ none
    | some (m, r') ↦ put_before m (open_all r' frames)
  ]

  pub open_all-cons :
      (r r' r'' : t.State) (c m ms : List ℕ) (frames : List (List ℕ))
      → t.read_message r c ≡ some (m, r')
      → open_all r' frames ≡ some (ms, r'')
      → open_all r (c ∷ frames) ≡ some (m ++ ms, r'')
  unfolding open_all
  open_all-cons r r' r'' c m ms frames reads rest = simp (reads, rest, open_all)

  rest_opened :
      (m p : List ℕ) (r'' : t.State) (o : Option (List ℕ × t.State))
      → put_before m o ≡ some (p, r'')
      → (ms : List ℕ) × (o ≡ some (ms, r'')) × (p ≡ m ++ ms)
  rest_opened m p r'' none e = absurd (cc e)
  rest_opened m p r'' (some (ms, s)) e =
      let pair = some-injective (m ++ ms, s) (p, r'') e in
      (ms, ap (λ x. some (ms, x)) (ap (λ x. x.1) pair), sym (ap (λ x. x.0) pair))

  -- The first message, and the others.
  pub open_all-uncons :
      (r r'' : t.State) (c p : List ℕ) (frames : List (List ℕ))
      → open_all r (c ∷ frames) ≡ some (p, r'')
      → (m ms : List ℕ) × (r' : t.State) × (t.read_message r c ≡ some (m, r'))
        × (open_all r' frames ≡ some (ms, r''))
        × (p ≡ m ++ ms)
  unfolding open_all
  open_all-uncons r r'' c p frames e = first (t.read_message r c) e
    where
      first :
          (o : Option (List ℕ × t.State))
          → ◌≡◌ {A = OpenedAll}
              (elim o [ none ↦ none | some (m, r') ↦ put_before m (open_all r' frames) ])
              (some (p, r''))
          → (m ms : List ℕ) × (r' : t.State) × (o ≡ some (m, r'))
            × (open_all r' frames ≡ some (ms, r''))
            × (p ≡ m ++ ms)
      first none q = absurd (cc q)
      first (some (m, r')) q =
          let (ms, rest, parts) = rest_opened m p r'' (open_all r' frames) q in
          (m, ms, r', refl, rest, parts)

  pub open_all-append :
      (a b : List (List ℕ)) (r r' r'' : t.State) (p q : List ℕ)
      → open_all r a ≡ some (p, r')
      → open_all r' b ≡ some (q, r'')
      → open_all r (a ++ b) ≡ some (p ++ q, r'')
  unfolding open_all
  open_all-append [] b r r' r'' p q ea eb =
      let pair = some-injective ([], r) (p, r') ea in
      rw (sym (ap (λ x. x.0) pair)) (ap (λ s. open_all s b) (ap (λ x. x.1) pair) ∙ eb)
  open_all-append (c ∷ a) b r r' r'' p q ea eb =
      let (m, ms, s, reads, rest, parts) = open_all-uncons r r' c p a ea in
      rw (parts, append_assoc m ms q)
        (open_all-cons r s r'' c m (ms ++ q) (a ++ b) reads
          (open_all-append a b s r' r'' ms q rest eb))
