-- ===== src/Packet/Layout.antt =====
-- ghostbro-common/src/spa.rs: the fields of a record of the right layout, and the flag bits.
use ghostbro.Base.{
  ℕ, suc, zero, ◌+◌, ◌<◌, ◌≡◌, refl, ap, List, [], ◌∷◌, ◌++◌, true, not, if◌then◌else◌, nat_beq,
  length, take, drop, arith, take-append, drop-append, bit_and, bit_or, take_all,
}
use ghostbro.Base.Bits.{all_below, eq_below}
use ghostbro.Base.Bytes.{from_be_bytes}
use ghostbro.Protocol.{spa_flag_https, spa_flag_use_packet_source, spa_reserved_flags}
use ghostbro.Packet.{
  SpaMode, udp, https, SpaAllowIp, explicit, packet_source, mode_bit, allow_ip_bit, mode_from_flags,
  parse_fields,
}
use mathlib.Core.List.{append_assoc}

module _ {ℓ} {A : Type ℓ} where
  drop-append_add : (n m : ℕ) (xs ys : List A) → length xs ≡ n → drop (n + m) (xs ++ ys) ≡ drop m ys
  drop-append_add zero m [] ys h = let z : zero + m ≡ m = omega arith in rw z
  drop-append_add zero m (x ∷ xs) ys h = absurd (omega arith)
  drop-append_add (suc n) m [] ys h = absurd (omega arith)
  drop-append_add (suc n) m (x ∷ xs) ys h =
      let s : suc n + m ≡ suc (n + m) = omega arith in
      rw s (drop-append_add n m xs ys (omega arith))

  pub drop-drop : (n m : ℕ) (xs : List A) → drop m (drop n xs) ≡ drop (n + m) xs
  drop-drop zero m xs = let z : zero + m ≡ m = omega arith in rw z
  drop-drop (suc n) zero [] = let s : suc n + zero ≡ suc n = omega arith in rw s
  drop-drop (suc n) (suc m) [] = let s : suc n + suc m ≡ suc (n + suc m) = omega arith in rw s
  drop-drop (suc n) m (x ∷ xs) =
      let s : suc n + m ≡ suc (n + m) = omega arith in rw s (drop-drop n m xs)

  -- A cut taken in two parts.
  pub take-add : (n m : ℕ) (xs : List A) → take (n + m) xs ≡ take n xs ++ take m (drop n xs)
  take-add zero m xs = let z : zero + m ≡ m = omega arith in rw z
  take-add (suc n) zero [] = let s : suc n + zero ≡ suc n = omega arith in rw s
  take-add (suc n) (suc m) [] = let s : suc n + suc m ≡ suc (n + suc m) = omega arith in rw s
  take-add (suc n) m (x ∷ xs) =
      let s : suc n + m ≡ suc (n + m) = omega arith in rw s (ap (◌∷◌ x) (take-add n m xs))

module _ (k t n ip s : List ℕ) (hk : length k ≡ 8) (ht : length t ≡ 8) (hn : length n ≡ 8)
    (hip : length ip ≡ 4) (hs : length s ≡ 64) where
  body : List ℕ
  body = k ++ (t ++ (n ++ (ip ++ s)))

  body_key : take 8 body ≡ k
  unfolding body
  body_key = take-append 8 k _ hk

  body_timestamp : take 8 (drop 8 body) ≡ t
  unfolding body
  body_timestamp = rw (drop-append 8 k (t ++ (n ++ (ip ++ s))) hk) (take-append 8 t _ ht)

  body_counter : take 8 (drop 16 body) ≡ n
  unfolding body
  body_counter =
      rw (drop-append_add 8 8 k (t ++ (n ++ (ip ++ s))) hk, drop-append 8 t (n ++ (ip ++ s)) ht)
        (take-append 8 n _ hn)

  body_address : take 4 (drop 24 body) ≡ ip
  unfolding body
  body_address =
      rw
        (
          drop-append_add 8 16 k (t ++ (n ++ (ip ++ s))) hk,
          drop-append_add 8 8 t (n ++ (ip ++ s)) ht,
          drop-append 8 n (ip ++ s) hn,
        )
        (take-append 4 ip _ hip)

  body_signature : take 64 (drop 28 body) ≡ s
  unfolding body
  body_signature =
      rw
        (
          drop-append_add 8 20 k (t ++ (n ++ (ip ++ s))) hk,
          drop-append_add 8 12 t (n ++ (ip ++ s)) ht,
          drop-append_add 8 4 n (ip ++ s) hn,
          drop-append 4 ip s hip,
        )
        (take_all 64 s (omega arith))

  -- The parser finds each field where the builder put it.
  pub parse_fields-layout :
      (flags v0 v1 : ℕ) (eph : List ℕ)
      → parse_fields flags (v0 ∷ v1 ∷ flags ∷ ((k ++ (t ++ (n ++ ip))) ++ s)) eph ≡ record {
        mode = mode_from_flags flags;
        use_packet_source = not (nat_beq (bit_and flags spa_flag_use_packet_source) 0);
        key_id = k;
        timestamp_ms = from_be_bytes t;
        counter = from_be_bytes n;
        allow_ip = ip;
        signature = s;
        ephemeral_pub = eph;
      }
  unfolding parse_fields
  parse_fields-layout flags v0 v1 eph =
      let whole : (k ++ (t ++ (n ++ ip))) ++ s ≡ body = unfold body in simp append_assoc in
      rw whole (rw (body_key, body_timestamp, body_counter, body_address, body_signature))

-- The two flag bits, whatever mode and address were asked for.
pub built_flags :
    (m : SpaMode) (a : SpaAllowIp)
    → let flags = bit_or (mode_bit m) (allow_ip_bit a) in
      (bit_and flags spa_reserved_flags ≡ 0) × (mode_from_flags flags ≡ m)
unfolding mode_from_flags
built_flags udp (explicit ip) = (refl, refl)
built_flags udp packet_source = (refl, refl)
built_flags https (explicit ip) = (refl, refl)
built_flags https packet_source = (refl, refl)

-- A flags byte with no reserved bit is rebuilt from the two fields read from it.
abbrev rebuilt : ℕ → ℕ
rebuilt f = bit_or (if nat_beq (bit_and f spa_flag_https) 0 then 0 else spa_flag_https) (
    if not (nat_beq (bit_and f spa_flag_use_packet_source) 0)
    then spa_flag_use_packet_source
    else 0)

rebuilt_table :
    all_below 256
      (λ f. nat_beq (if nat_beq (bit_and f spa_reserved_flags) 0 then rebuilt f else f) f)
    ≡ true
unfolding all_below
rebuilt_table = refl

pub rebuilt_flags : (f : ℕ) → f < 256 → bit_and f spa_reserved_flags ≡ 0 → rebuilt f ≡ f
rebuilt_flags f h e = rw e at (
    eq_below 256 (λ f. if nat_beq (bit_and f spa_reserved_flags) 0 then rebuilt f else f) (λ f. f)
      rebuilt_table f h)
