-- ===== src/Base/Maybe.antt =====
-- `?` on an `Option`, or on a `Result` whose error says nothing; checked addition.
use Prim.Native.Nat.{ℕ, ◌+◌, ◌^◌}
use mathlib.Core.Option.{Option, none, some}
use ghostbro.Base.Tests.{ltb, if◌then◌else◌}

infixl 5 ◌>>=◌
abbrev pub ◌>>=◌ {ℓ κ} : {A : Type ℓ} {B : Type κ} → Option A → (A → Option B) → Option B
none >>= f = none
some a >>= f = f a

-- `usize::checked_add`
abbrev pub checked_add : ℕ → ℕ → Option ℕ
checked_add a b = if ltb (a + b) (2 ^ 64) then some (a + b) else none
