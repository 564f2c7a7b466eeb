-- ===== src/Base/Bits.antt =====
-- Masks and shifts: tables over a byte, and `|` of numbers that share no bit.
use Prim.Native.Nat.{bit_or-bitwise, digits}
use ghostbro.Base.Tests.{nat_beq, nat_beq_iff}
use Prim.Native.Nat.{ℕ, zero, suc, ◌+◌, ◌*◌, ◌/◌, ◌%◌, ◌^◌, ◌≤◌, ◌<◌, max, bit_or}
use mathlib.Core.Path.{◌≡◌, refl, ap, ◌∙◌}
use mathlib.Core.Bool.{Bool, true, ◌&&◌}
use native.Mathlib.Omega.{arith}
use native.Mathlib.Nat.{pow-suc}

-- Over a small range, every value is checked by evaluation.
unfoldable pub all_below : ℕ → (ℕ → Bool) → Bool
all_below zero test = true
all_below (suc k) test = all_below k test && test k

pub all_below_sound :
    (bound : ℕ) (test : ℕ → Bool) (i : ℕ) → i < bound → all_below bound test ≡ true → test i ≡ true
unfolding all_below
all_below_sound zero test i small passed = absurd (omega arith)
all_below_sound (suc k) test i small passed = ground (arith, all_below_sound k test i)

-- Two functions that a table finds equal are equal below its end.
pub eq_below :
    (n : ℕ) (f g : ℕ → ℕ)
    → all_below n (λ x. nat_beq (f x) (g x)) ≡ true
    → (x : ℕ) → x < n
    → f x ≡ g x
eq_below n f g h x lt = (nat_beq_iff _ _).0 (all_below_sound n _ x lt h)

-- The recursion on binary digits that `|` stands for.
abbrev or_digits : ℕ → ℕ → ℕ → ℕ
or_digits n a b = digits (λ b. b) max n a b

or_digits_fuel : (n m a b : ℕ) → a ≤ n → a ≤ m → or_digits n a b ≡ or_digits m a b
or_digits_fuel zero zero a b p q = refl
or_digits_fuel zero (suc m) zero b p q = refl
or_digits_fuel zero (suc m) (suc a) b p q = absurd (omega arith)
or_digits_fuel (suc n) zero zero b p q = refl
or_digits_fuel (suc n) zero (suc a) b p q = absurd (omega arith)
or_digits_fuel (suc n) (suc m) zero b p q = refl
or_digits_fuel (suc n) (suc m) (suc a) b p q =
    omega (arith, or_digits_fuel n m (suc a / 2) (b / 2) (omega arith) (omega arith))

zero-bit_or : (b : ℕ) → bit_or 0 b ≡ b
zero-bit_or b = bit_or-bitwise 0 b

bit_or_step : (a b : ℕ) → bit_or a b ≡ bit_or (a / 2) (b / 2) * 2 + max (a % 2) (b % 2)
bit_or_step zero b = omega (arith, zero-bit_or b, zero-bit_or (b / 2))
bit_or_step (suc a) b = omega (
  arith,
  bit_or-bitwise (suc a) b,
  bit_or-bitwise (suc a / 2) (b / 2),
  or_digits_fuel a (suc a / 2) (suc a / 2) (b / 2) (omega arith) (omega arith),
)

bit_or-zero_fuel : (n a : ℕ) → a ≤ n → bit_or a 0 ≡ a
bit_or-zero_fuel n zero h = refl
bit_or-zero_fuel zero (suc a) h = absurd (omega arith)
bit_or-zero_fuel (suc n) (suc a) h =
    omega (arith, bit_or_step (suc a) 0, bit_or-zero_fuel n (suc a / 2) (omega arith))

-- A field shifted over `k` bits and a field of `k` bits do not overlap: `|` adds them.
pub bit_or-shifted : (k hi lo : ℕ) → lo < 2 ^ k → bit_or (hi * 2 ^ k) lo ≡ hi * 2 ^ k + lo
bit_or-shifted zero hi lo h =
    let one_wide : hi * 2 ^ 0 ≡ hi = omega arith in
    let empty : lo ≡ 0 = omega arith in
    rw (one_wide, empty) (bit_or-zero_fuel hi hi (omega arith) ∙ omega arith)
bit_or-shifted (suc k) hi lo h = omega (
  arith,
  pow-suc 2 k,
  ap (λ (t : ℕ). hi * t) (pow-suc 2 k),
  bit_or_step (hi * 2 ^ suc k) lo,
  halved,
  bit_or-shifted k hi (lo / 2) (omega (arith, pow-suc 2 k)),
)
  where
    twice : hi * 2 ^ suc k ≡ hi * 2 ^ k * 2
    twice = omega (arith, ap (λ (t : ℕ). hi * t) (pow-suc 2 k))

    halved : bit_or (hi * 2 ^ suc k / 2) (lo / 2) ≡ bit_or (hi * 2 ^ k) (lo / 2)
    halved = rw (twice) (let e : hi * 2 ^ k * 2 / 2 ≡ hi * 2 ^ k = omega arith in rw e)
