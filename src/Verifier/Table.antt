-- ===== src/Verifier/Table.antt =====
-- ghostbro-server/src/spa.rs: the counters as a table of hexadecimal key ids, and back.
use ghostbro.Base.{
  ℕ, ◌≡◌, refl, ap, sym, ◌∙◌, List, [], ◌∷◌, some, length, All, bytes_beq, bytes_beq_iff, bytes_eq,
  Bool-cases, inl, inr, some,
}
use ghostbro.Base.Bytes.{IsByte}
use ghostbro.Base.Dict.{Dict, lookup, insert, remove, lookup-insert}
use ghostbro.Base.Result.{ok}
use ghostbro.Keys.{key_id_hex, key_id_from_hex}
use ghostbro.Keys.Hex.{key_id_from_hex-hex}
use ghostbro.Packet.{KeyId}
use ghostbro.Verifier.{encode_counters, decode_counters}

-- A key id is eight bytes.
abbrev pub IsKeyId : KeyId → Type 0
IsKeyId k = (length k ≡ 8) × All IsByte k

abbrev pub IsTable : Dict KeyId ℕ → Type 0
IsTable = All (λ (e : KeyId × ℕ). IsKeyId e.0)

remove-IsTable : (k : KeyId) (m : Dict KeyId ℕ) → IsTable m → IsTable (remove k m)
unfolding remove
remove-IsTable k [] h = tt
remove-IsTable k ((j, n) ∷ m) h = elim (Bool-cases (bytes_beq j k)) [
  | inl e ↦ rw e (remove-IsTable k m h.1)
  | inr e ↦ rw e (h.0, remove-IsTable k m h.1)
]

pub insert-IsTable :
    (k : KeyId) (n : ℕ) (m : Dict KeyId ℕ) → IsKeyId k → IsTable m → IsTable (insert k n m)
unfolding insert
insert-IsTable k n m hk h = (hk, remove-IsTable k m h)

hex-injective : (j k : KeyId) → IsKeyId j → IsKeyId k → key_id_hex j ≡ key_id_hex k → j ≡ k
hex-injective j k hj hk e =
    cc (key_id_from_hex-hex j hj.0 hj.1, key_id_from_hex-hex k hk.0 hk.1, ap key_id_from_hex e)

-- Comparing key ids and comparing their hexadecimal forms is one.
beq-hex :
    (j k : KeyId) → IsKeyId j → IsKeyId k → bytes_beq (key_id_hex j) (key_id_hex k) ≡ bytes_beq j k
beq-hex j k hj hk = elim (Bool-cases (bytes_beq (key_id_hex j) (key_id_hex k))) [
  | inl e ↦
      let same = hex-injective j k hj hk ((bytes_beq_iff _ _).0 e) in
      rw e (sym ((bytes_beq_iff j k).1 same))
  | inr e ↦ elim (Bool-cases (bytes_beq j k)) [
    | inl d ↦ absurd (cc (e, (bytes_beq_iff _ _).1 (ap key_id_hex ((bytes_beq_iff j k).0 d))))
    | inr d ↦ rw (e, d)
  ]
]

pub lookup-encode :
    (k : KeyId) (m : Dict KeyId ℕ)
    → IsKeyId k
    → IsTable m
    → lookup (key_id_hex k) (encode_counters m) ≡ lookup k m
unfolding lookup
lookup-encode k [] hk h = refl
lookup-encode k ((j, n) ∷ m) hk h = rw (beq-hex j k h.0 hk, lookup-encode k m hk h.1)

-- A text that the encoded table holds is the form of a key id.
abbrev IsForm : List ℕ → Type 0
IsForm s = (k : KeyId) × IsKeyId k × (s ≡ key_id_hex k)

encoded-IsForm :
    (s : List ℕ) (x : ℕ) (m : Dict KeyId ℕ)
    → IsTable m
    → lookup s (encode_counters m) ≡ some x
    → IsForm s
unfolding lookup
encoded-IsForm s x [] h e = absurd (cc e)
encoded-IsForm s x ((j, n) ∷ m) h e = elim (Bool-cases (bytes_beq (key_id_hex j) s)) [
  | inl d ↦ (j, h.0, sym ((bytes_beq_iff _ _).0 d))
  | inr d ↦ encoded-IsForm s x m h.1 (rw d at e)
]

-- If all that a lookup finds has a property, so has every entry.
found→all :
    (P : List ℕ → Type 0) (n : Dict (List ℕ) ℕ)
    → ((s : List ℕ) (x : ℕ) → lookup s n ≡ some x → P s)
    → All (λ (e : List ℕ × ℕ). P e.0) n
unfolding lookup
found→all P [] h = tt
found→all P ((s, x) ∷ n) h =
    let head : P s = h s x (rw ((bytes_beq_iff s s).1 refl)) in
    (
      head,
      found→all P n λ t y e. elim (Bool-cases (bytes_beq s t)) [
        | inl d ↦ let same : s ≡ t = (bytes_beq_iff s t).0 d in rw (← same) head
        | inr d ↦ h t y (rw d e)
      ],
    )

lookup-decoded :
    (k j : KeyId) (x : ℕ) (m : Dict KeyId ℕ) (n : Dict (List ℕ) ℕ)
    → IsKeyId k
    → IsKeyId j
    → lookup j m ≡ lookup (key_id_hex j) n
    → lookup j (insert k x m) ≡ lookup (key_id_hex j) ((key_id_hex k, x) ∷ n)
unfolding lookup
lookup-decoded k j x m n hk hj same = rw (lookup-insert k j x m, beq-hex k j hk hj, same)

decode-forms :
    (n : Dict (List ℕ) ℕ)
    → All (λ (e : List ℕ × ℕ). IsForm e.0) n
    → (m : Dict KeyId ℕ) × (decode_counters n ≡ ok m)
      × ((k : KeyId) → IsKeyId k → lookup k m ≡ lookup (key_id_hex k) n)
unfolding decode_counters
decode-forms [] h = ([], refl, λ k hk. unfold lookup in refl)
decode-forms ((s, x) ∷ n) h =
    let (k, hk, form) = h.0 in
    let (m, decoded, same) = decode-forms n h.1 in
    (
      insert k x m,
      rw (form, key_id_from_hex-hex k hk.0 hk.1, decoded),
      λ j hj. lookup-decoded k j x m n hk hj (same j hj) ∙ rw form,
    )

-- Counters under key ids of eight bytes, encoded: any table with the entries of the encoded one
-- decodes, to the same counter for every key id of eight bytes.
pub decode-encode :
    (m : Dict KeyId ℕ) (n : Dict (List ℕ) ℕ)
    → IsTable m
    → ((s : List ℕ) → lookup s n ≡ lookup s (encode_counters m))
    → (r : Dict KeyId ℕ) × (decode_counters n ≡ ok r)
      × ((k : KeyId) → IsKeyId k → lookup k r ≡ lookup k m)
decode-encode m n h same =
    let forms = found→all IsForm n λ s x e. encoded-IsForm s x m h (sym (same s) ∙ e) in
    let (r, decoded, found) = decode-forms n forms in
    (r, decoded, λ k hk. found k hk ∙ same (key_id_hex k) ∙ lookup-encode k m hk h)
