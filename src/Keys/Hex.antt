-- ===== src/Keys/Hex.antt =====
-- ghostbro-common/src/keys.rs: the hexadecimal form of a key id.
use ghostbro.Base.{
  ℕ, ◌+◌, ◌/◌, ◌%◌, ◌<◌, ◌≡◌, ◌≢◌, refl, ap, List, [], ◌∷◌, some, length, arith, All, nat_beq,
  false,
}
use ghostbro.Base.Bytes.{IsByte}
use ghostbro.Keys.{
  hex_digit, key_id_hex, digit_value, byte_from_hex, bytes_from_hex, key_id_from_hex,
}

digit_value-hex_digit : (d : ℕ) → d < 16 → digit_value (hex_digit d) ≡ some d
unfolding digit_value hex_digit
digit_value-hex_digit d h = ground arith

hex_digit-ne-plus : (d : ℕ) → d < 16 → hex_digit d ≢ b'+'
unfolding hex_digit
hex_digit-ne-plus d h = ground arith

nat_beq-ne : (a b : ℕ) → a ≢ b → nat_beq a b ≡ false
nat_beq-ne a b h = ground arith

byte_from_hex-digits :
    (b : ℕ) → b < 256 → byte_from_hex (hex_digit (b / 16)) (hex_digit (b % 16)) ≡ some b
unfolding byte_from_hex
byte_from_hex-digits b h =
    let high : b / 16 < 16 = omega arith in
    let low : b % 16 < 16 = omega arith in
    rw
      (
        nat_beq-ne _ _ (hex_digit-ne-plus (b / 16) high),
        digit_value-hex_digit (b / 16) high,
        digit_value-hex_digit (b % 16) low,
      )
      (ap some (omega arith))

bytes_from_hex_step :
    (b : ℕ) (bs : List ℕ)
    → b < 256
    → bytes_from_hex (key_id_hex bs) ≡ some bs
    → bytes_from_hex (key_id_hex (b ∷ bs)) ≡ some (b ∷ bs)
unfolding bytes_from_hex key_id_hex
bytes_from_hex_step b bs h e = ground (arith, e, byte_from_hex-digits b h)

bytes_from_hex-hex : (k : List ℕ) → All IsByte k → bytes_from_hex (key_id_hex k) ≡ some k
unfolding bytes_from_hex key_id_hex
bytes_from_hex-hex [] h = refl
bytes_from_hex-hex (b ∷ bs) h = bytes_from_hex_step b bs h.0 (bytes_from_hex-hex bs h.1)

length-key_id_hex : (k : List ℕ) → length (key_id_hex k) ≡ length k + length k
unfolding key_id_hex
length-key_id_hex [] = refl
length-key_id_hex (b ∷ bs) = omega (arith, length-key_id_hex bs)

-- The hexadecimal form of a key id of eight bytes is read back.
pub key_id_from_hex-hex :
    (k : List ℕ) → length k ≡ 8 → All IsByte k → key_id_from_hex (key_id_hex k) ≡ some k
unfolding key_id_from_hex
key_id_from_hex-hex k n h =
    let size : length (key_id_hex k) ≡ 16 = omega (arith, length-key_id_hex k) in
    rw size (bytes_from_hex-hex k h)
