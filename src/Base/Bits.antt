-- ===== src/Base/Bits.antt =====
-- The bits of a machine word, read off one at a time, and what `&`, `|` and `&^` do to them.
use Prim.Native.Nat.{
  ℕ, zero, suc, ◌+◌, ◌*◌, ◌/◌, ◌%◌, ◌≤◌, min, max, bit_and, bit_or, digits, bit_and-bitwise,
  bit_or-bitwise,
}
use mathlib.Core.Path.{◌≡◌, refl}
use native.Mathlib.Omega.{arith}

abbrev and_fuel : ℕ → ℕ → ℕ → ℕ
and_fuel = digits (λ b. zero) min

abbrev or_fuel : ℕ → ℕ → ℕ → ℕ
or_fuel = digits (λ b. b) max

and_fuel_any : (n m a b : ℕ) → a ≤ n → a ≤ m → and_fuel n a b ≡ and_fuel m a b
and_fuel_any zero zero a b p q = refl
and_fuel_any zero (suc m) zero b p q = refl
and_fuel_any zero (suc m) (suc a) b p q = absurd (omega arith)
and_fuel_any (suc n) zero zero b p q = refl
and_fuel_any (suc n) zero (suc a) b p q = absurd (omega arith)
and_fuel_any (suc n) (suc m) zero b p q = refl
and_fuel_any (suc n) (suc m) (suc a) b p q =
    omega (arith, and_fuel_any n m (suc a / 2) (b / 2) (omega arith) (omega arith))

or_fuel_any : (n m a b : ℕ) → a ≤ n → a ≤ m → or_fuel n a b ≡ or_fuel m a b
or_fuel_any zero zero a b p q = refl
or_fuel_any zero (suc m) zero b p q = refl
or_fuel_any zero (suc m) (suc a) b p q = absurd (omega arith)
or_fuel_any (suc n) zero zero b p q = refl
or_fuel_any (suc n) zero (suc a) b p q = absurd (omega arith)
or_fuel_any (suc n) (suc m) zero b p q = refl
or_fuel_any (suc n) (suc m) (suc a) b p q =
    omega (arith, or_fuel_any n m (suc a / 2) (b / 2) (omega arith) (omega arith))

-- One digit at a time, from the definitions that the native operations stand for.
pub bit_and_unfold : (x y : ℕ) → bit_and x y ≡ bit_and (x / 2) (y / 2) * 2 + min (x % 2) (y % 2)
bit_and_unfold zero b = omega (arith, bit_and-bitwise 0 b, bit_and-bitwise 0 (b / 2))
bit_and_unfold (suc a) b = omega (
  arith,
  bit_and-bitwise (suc a) b,
  bit_and-bitwise (suc a / 2) (b / 2),
  and_fuel_any a (suc a / 2) (suc a / 2) (b / 2) (omega arith) (omega arith),
)

pub bit_or_unfold : (x y : ℕ) → bit_or x y ≡ bit_or (x / 2) (y / 2) * 2 + max (x % 2) (y % 2)
bit_or_unfold zero b = omega (arith, bit_or-bitwise 0 b, bit_or-bitwise 0 (b / 2))
bit_or_unfold (suc a) b = omega (
  arith,
  bit_or-bitwise (suc a) b,
  bit_or-bitwise (suc a / 2) (b / 2),
  or_fuel_any a (suc a / 2) (suc a / 2) (b / 2) (omega arith) (omega arith),
)
