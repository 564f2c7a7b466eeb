-- ===== src/Base/Bytes.antt =====
-- Bytes and big-endian numbers (`to_be_bytes`, `from_be_bytes`).
use Prim.Native.Nat.{ℕ, zero, suc, ◌+◌, ◌*◌, ◌/◌, ◌%◌, ◌^◌, ◌<◌}
use mathlib.Core.Path.{◌≡◌, refl, ◌∙◌, sym}
use mathlib.Core.List.{List, [], ◌∷◌, ◌++◌, append-nil, append_assoc}
use native.Mathlib.Omega.{arith}
use native.Mathlib.Nat.{pow-suc}
use ghostbro.Base.Lists.{length, length-append, All, All-append}

abbrev pub IsByte : ℕ → Type 0
IsByte b = b < 256

unfoldable pub to_be_bytes : ℕ → ℕ → List ℕ
to_be_bytes zero v = []
to_be_bytes (suc n) v = to_be_bytes n (v / 256) ++ (v % 256) ∷ []

unfoldable pub be_value : ℕ → List ℕ → ℕ
be_value acc [] = acc
be_value acc (b ∷ bs) = be_value (acc * 256 + b) bs

unfoldable pub from_be_bytes : List ℕ → ℕ
unfolding be_value
from_be_bytes bs = be_value 0 bs

pub length-to_be_bytes : (n v : ℕ) → length (to_be_bytes n v) ≡ n
unfolding to_be_bytes
length-to_be_bytes zero v = refl
length-to_be_bytes (suc n) v = omega (
  arith,
  length-append (to_be_bytes n (v / 256)) ((v % 256) ∷ []),
  length-to_be_bytes n (v / 256),
)

pub to_be_bytes-IsByte : (n v : ℕ) → All IsByte (to_be_bytes n v)
unfolding to_be_bytes
to_be_bytes-IsByte zero v = tt
to_be_bytes-IsByte (suc n) v =
    All-append IsByte (to_be_bytes n (v / 256)) ((v % 256) ∷ []) (to_be_bytes-IsByte n (v / 256))
      (omega arith)

be_value-append :
    (acc b : ℕ) (xs : List ℕ) → be_value acc (xs ++ b ∷ []) ≡ be_value acc xs * 256 + b
unfolding be_value
be_value-append acc b [] = refl
be_value-append acc b (x ∷ xs) = be_value-append (acc * 256 + x) b xs

be_value-to_be_bytes : (n v : ℕ) → v < 256 ^ n → be_value 0 (to_be_bytes n v) ≡ v
unfolding be_value to_be_bytes
be_value-to_be_bytes zero v h = omega arith
be_value-to_be_bytes (suc n) v h = omega (
  arith,
  be_value-append 0 (v % 256) (to_be_bytes n (v / 256)),
  be_value-to_be_bytes n (v / 256) (omega (arith, pow-suc 256 n)),
)

-- A number that fits is read back.
pub from_be_bytes-to_be_bytes : (n v : ℕ) → v < 256 ^ n → from_be_bytes (to_be_bytes n v) ≡ v
unfolding from_be_bytes
from_be_bytes-to_be_bytes n v h = be_value-to_be_bytes n v h

to_be_bytes-be_value :
    (k m : ℕ) (acc : ℕ) (bs : List ℕ)
    → All IsByte bs
    → m ≡ length bs
    → to_be_bytes (m + k) (be_value acc bs) ≡ to_be_bytes k acc ++ bs
unfolding be_value
to_be_bytes-be_value k zero acc [] h e = let z : zero + k ≡ k = omega arith in rw (z, append-nil)
to_be_bytes-be_value k (suc m) acc [] h e = absurd (omega arith)
to_be_bytes-be_value k zero acc (b ∷ bs) h e = absurd (omega arith)
to_be_bytes-be_value k (suc m) acc (b ∷ bs) h e =
    let shift : suc m + k ≡ m + suc k = omega arith in
    let q : (acc * 256 + b) / 256 ≡ acc = omega (arith, h.0) in
    let r : (acc * 256 + b) % 256 ≡ b = omega (arith, h.0) in
    rw shift (
      to_be_bytes-be_value (suc k) m (acc * 256 + b) bs h.1 (omega arith)
      ∙ (unfold to_be_bytes in rw (q, r, append_assoc)))

-- Bytes are written back as they were read.
pub to_be_bytes-from_be_bytes :
    (n : ℕ) (bs : List ℕ) → All IsByte bs → length bs ≡ n → to_be_bytes n (from_be_bytes bs) ≡ bs
unfolding from_be_bytes
to_be_bytes-from_be_bytes n bs h e =
    let z : n ≡ n + 0 = omega arith in
    rw z (to_be_bytes-be_value 0 n 0 bs h (sym e) ∙ (unfold to_be_bytes in refl))

be_value-lt :
    (k acc : ℕ) (bs : List ℕ)
    → All IsByte bs
    → acc < 256 ^ k
    → be_value acc bs < 256 ^ (length bs + k)
unfolding be_value
be_value-lt k acc [] h lt = let z : 0 + k ≡ k = omega arith in rw z lt
be_value-lt k acc (b ∷ bs) h lt =
    let shift : suc (length bs) + k ≡ length bs + suc k = omega arith in
    rw shift (be_value-lt (suc k) (acc * 256 + b) bs h.1 (omega (arith, pow-suc 256 k, h.0)))

pub from_be_bytes-lt :
    (n : ℕ) (bs : List ℕ) → All IsByte bs → length bs ≡ n → from_be_bytes bs < 256 ^ n
unfolding from_be_bytes
from_be_bytes-lt n bs h e =
    let z : n ≡ length bs + 0 = omega arith in rw z (be_value-lt 0 0 bs h (omega arith))
