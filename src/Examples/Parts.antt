-- ===== src/Examples/Parts.antt =====
-- Concrete stand-ins for the parameters of the model, with the laws asked of them.
use ghostbro.Base.{
  ℕ, zero, suc, ◌-◌, ◌%◌, ◌^◌, ◌≤◌, ◌≡◌, refl, ap, inl, Option, none, some, false, ◌∙◌, List, [],
  ◌∷◌, ◌++◌, if◌then◌else◌, length, take, replicate, map, All, All-take, All-append, length-append,
  length-take, take-append, bytes_beq, bytes_beq_refl, bytes_beq_iff, Option-cases, Bool-cases, inr,
  nat_beq, leb, arith, bytes_eq, nat_eq,
}
use ghostbro.Base.Bytes.{IsByte}
use ghostbro.Base.Dict.{
  Dict, lookup, insert, remove, lookup-insert, lookup-insert_self, lookup-remove,
}
use ghostbro.Crypto.{Crypto, CryptoLaws}
use ghostbro.Disk.{Toml, TomlLaws}
use mathlib.Core.List.{append-nil, append_assoc}
use ghostbro.LruMap.{LruMap, LruMapLaws}

-- The first `n` bytes of a list that is continued by zeros.
unfoldable pub fit : ℕ → List ℕ → List ℕ
fit n m = take n (map (λ b. b % 256) m ++ replicate n 0)

length-replicate : (n : ℕ) → length {A = ℕ} (replicate n 0) ≡ n
length-replicate zero = refl
length-replicate (suc n) = ap suc (length-replicate n)

length-fit : (n : ℕ) (m : List ℕ) → length (fit n m) ≡ n
unfolding fit
length-fit n m = omega (
  arith,
  length-take n (map (λ b. b % 256) m ++ replicate n 0),
  length-append (map (λ b. b % 256) m) (replicate n 0),
  length-replicate n,
)

reduced-IsByte : (m : List ℕ) → All IsByte (map (λ b. b % 256) m)
reduced-IsByte [] = tt
reduced-IsByte (b ∷ m) = (omega arith, reduced-IsByte m)

zeros-IsByte : (n : ℕ) → All IsByte (replicate n 0)
zeros-IsByte zero = tt
zeros-IsByte (suc n) = (omega arith, zeros-IsByte n)

fit-IsByte : (n : ℕ) (m : List ℕ) → All IsByte (fit n m)
unfolding fit
fit-IsByte n m =
    All-take IsByte n (map (λ b. b % 256) m ++ replicate n 0)
      (All-append IsByte (map (λ b. b % 256) m) (replicate n 0) (reduced-IsByte m) (zeros-IsByte n))

reduced_same : (m : List ℕ) → All IsByte m → map (λ b. b % 256) m ≡ m
reduced_same [] h = refl
reduced_same (b ∷ m) h =
    let same : b % 256 ≡ b = omega (arith, h.0) in rw (same, reduced_same m h.1)

abbrev pub toy_crypto : Crypto
toy_crypto = record {
  sha256 = fit 32;
  x25519_public = fit 32;
  diffie_hellman = λ a b. [];
  aead_encrypt = λ key nonce aad m. some (m ++ replicate 16 0);
  aead_decrypt = λ key nonce aad s. some (map (λ b. b % 256) (take (length s - 16) s));
  verifying_key = λ k. k;
  sign = λ k m. fit 64 (k ++ m);
  verify_signature = λ k m s. bytes_beq (fit 64 (k ++ m)) s;
}

toy_decrypts :
    (m : List ℕ)
    → All IsByte m
    → map (λ b. b % 256) (take (length (m ++ replicate 16 0) - 16) (m ++ replicate 16 0)) ≡ m
toy_decrypts m h =
    let size : length (m ++ replicate 16 0) - 16 ≡ length m =
      omega (arith, length-append m (replicate 16 0)) in
    rw (size, take-append (length m) m (replicate 16 0) refl) (reduced_same m h)

pub toy_crypto_laws : CryptoLaws toy_crypto
toy_crypto_laws = record {
  length-sha256 = length-fit 32;
  sha256-IsByte = fit-IsByte 32;
  length-public = length-fit 32;
  agreement = λ a b. refl;
  encrypts = λ key nonce aad m h.
      (m ++ replicate 16 0, refl, length-append m (replicate 16 0), ap some (toy_decrypts m h));
  decrypt-IsByte = λ key nonce aad s m h.
      let reduced : map (λ b. b % 256) (take (length s - 16) s) ≡ m = cc h in
      rw (← reduced) (reduced-IsByte (take (length s - 16) s));
  length-sign = λ k m. length-fit 64 (k ++ m);
  sign-IsByte = λ k m. fit-IsByte 64 (k ++ m);
  verify-sign = λ k m. bytes_beq_refl (fit 64 (k ++ m));
}

-- A table as text: each byte of a key shifted by one, a zero, the number.
unfoldable pub print_entry : List ℕ → ℕ → List ℕ → List ℕ
print_entry [] n rest = 0 ∷ n ∷ rest
print_entry (b ∷ key) n rest = suc b ∷ print_entry key n rest

unfoldable pub print_table : Dict (List ℕ) ℕ → Option (List ℕ)
print_table [] = some []
print_table ((key, n) ∷ m) = elim (print_table m) [
  | none ↦ none
  | some rest ↦ if leb (2 ^ 63) n then none else some (print_entry key n rest)
]

unfoldable pub read_table : List ℕ → List ℕ → Option (Dict (List ℕ) ℕ)
read_table key [] = some []
read_table key (zero ∷ []) = none
read_table key (zero ∷ n ∷ rest) = elim (read_table [] rest) [
  | none ↦ none
  | some m ↦ some ((key, n) ∷ m)
]
read_table key (suc b ∷ rest) = read_table (key ++ b ∷ []) rest

abbrev pub toy_toml : Toml
toy_toml = record { to_string_pretty = print_table; from_str = read_table [] }

abbrev pub toy_map : (V : Type 0) → LruMap V
toy_map V = record {
  Store = Dict ℕ V;
  get = λ s k. lookup k s;
  put = λ s k v. insert k v s;
  drop_key = λ s k. remove k s;
  update = λ s k v. some (insert k v s);
  delete = λ s k. elim (lookup k s) [ none ↦ none | some v ↦ some (remove k s) ];
}

read-print_entry :
    (done key : List ℕ) (n : ℕ) (rest : List ℕ) (m : Dict (List ℕ) ℕ)
    → read_table [] rest ≡ some m
    → read_table done (print_entry key n rest) ≡ some ((done ++ key, n) ∷ m)
unfolding read_table print_entry
read-print_entry done [] n rest m h = rw (h, read_table, append-nil)
read-print_entry done (b ∷ key) n rest m h =
    rw (read-print_entry (done ++ b ∷ []) key n rest m h, append_assoc)

read-print_table :
    (m : Dict (List ℕ) ℕ) (text : List ℕ) → print_table m ≡ some text → read_table [] text ≡ some m
unfolding print_table read_table
read-print_table [] text h = let e : [] ≡ text = cc in rw (← e)
read-print_table ((key, n) ∷ m) text h = elim (Option-cases (print_table m)) [
  | inl none_left ↦ absurd (cc (rw none_left at h))
  | inr (rest, printed) ↦ elim (Bool-cases (leb (2 ^ 63) n)) [
    | inl large ↦ absurd (cc (rw (printed, large) at h))
    | inr small ↦
        let e : print_entry key n rest ≡ text = cc (rw (printed, small) at h) in
        rw (← e) (read-print_entry [] key n rest m (read-print_table m rest printed))
  ]
]

print_table-large :
    (m : Dict (List ℕ) ℕ) (key : List ℕ) (n : ℕ)
    → lookup key m ≡ some n
    → 2 ^ 63 ≤ n
    → print_table m ≡ none
unfolding print_table lookup
print_table-large [] key n h large = absurd (cc h)
print_table-large ((j, i) ∷ m) key n h large =
    ground (arith, h, bytes_beq_iff j key, print_table-large m key n)

pub toy_toml_laws : TomlLaws toy_toml
toy_toml_laws = record {
  from_str-to_string = λ m text h. (m, read-print_table m text h, λ s. refl);
  to_string-large = λ m key n h large. print_table-large m key n h large;
}

some_injective : {V : Type 0} (a b : V) → some a ≡ some b → a ≡ b
some_injective a b h = cc h

toy-delete_absent :
    (V : Type 0) (s : Dict ℕ V) (k : ℕ) → lookup k s ≡ none → (toy_map V).delete s k ≡ none
toy-delete_absent V s k h = rw (toy_map, h)

toy-deleted :
    (V : Type 0) (s t : Dict ℕ V) (k : ℕ) → (toy_map V).delete s k ≡ some t → remove k s ≡ t
toy-deleted V s t k h = ground (arith, h)

pub toy_map_laws : (V : Type 0) → LruMapLaws (toy_map V)
toy_map_laws V = record {
  get-drop_key = λ s k j. lookup-remove k j s;
  get-update_self =
      λ s t k v h. rw (← some_injective (insert k v s) t h) (lookup-insert_self k v s);
  get-update_other = λ s t k j v h apart.
      let other : nat_beq k j ≡ false = ground (arith, apart) in
      inl (rw (← some_injective (insert k v s) t h) (lookup-insert k j v s ∙ rw other));
  delete_absent = λ s k h. toy-delete_absent V s k h;
  get-delete = λ s t k j h. rw (← toy-deleted V s t k h) (lookup-remove k j s);
}
