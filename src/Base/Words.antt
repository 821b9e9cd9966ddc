-- ===== src/Base/Words.antt =====
-- Bits of a word by position, and what `|`, `&` and `&^` do to them.
use Prim.Native.Nat.{
  ℕ, zero, suc, ◌+◌, ◌-◌, ◌*◌, ◌/◌, ◌%◌, ◌^◌, ◌≤◌, ◌<◌, min, max, bit_and, bit_or, bit_and-bitwise,
}
use mathlib.Core.Path.{◌≡◌, refl, ap}
use mathlib.Core.Logic.{◌≢◌}
use native.Mathlib.Nat.{pow-suc}
use native.Mathlib.Omega.{arith}
use accel.Base.Bits.{bit_and_unfold, bit_or_unfold}

-- Bit `k` of `x`, 0 or 1.
pub bit : ℕ → ℕ → ℕ
bit x zero = x % 2
bit x (suc k) = bit (x / 2) k

-- `a &^ b`
unfoldable pub and_not : ℕ → ℕ → ℕ
and_not a b = a - bit_and a b

pub bit-le-one : (x k : ℕ) → bit x k ≤ 1
unfolding bit
bit-le-one x zero = omega arith
bit-le-one x (suc k) = bit-le-one (x / 2) k

pub two_pow_suc : (k : ℕ) → 2 ^ suc k ≡ 2 ^ k * 2
two_pow_suc k = pow-suc 2 k

pub two_pow_pos : (k : ℕ) → 0 < 2 ^ k
two_pow_pos zero = omega arith
two_pow_pos (suc k) = omega (arith, two_pow_suc k, two_pow_pos k)

pub bit-zero : (k : ℕ) → bit 0 k ≡ 0
unfolding bit
bit-zero zero = refl
bit-zero (suc k) = bit-zero k

pub bit-or : (a b k : ℕ) → bit (bit_or a b) k ≡ max (bit a k) (bit b k)
unfolding bit
bit-or a b zero = omega (arith, bit_or_unfold a b)
bit-or a b (suc k) =
    let e : bit_or a b / 2 ≡ bit_or (a / 2) (b / 2) = omega (arith, bit_or_unfold a b) in
    rw e (bit-or (a / 2) (b / 2) k)

pub bit-and : (a b k : ℕ) → bit (bit_and a b) k ≡ min (bit a k) (bit b k)
unfolding bit
bit-and a b zero = omega (arith, bit_and_unfold a b)
bit-and a b (suc k) =
    let e : bit_and a b / 2 ≡ bit_and (a / 2) (b / 2) = omega (arith, bit_and_unfold a b) in
    rw e (bit-and (a / 2) (b / 2) k)

-- The one bit of `1 << k`.
pub bit-pow_self : (k : ℕ) → bit (2 ^ k) k ≡ 1
unfolding bit
bit-pow_self zero = refl
bit-pow_self (suc k) =
    let e : 2 ^ suc k / 2 ≡ 2 ^ k = omega (arith, two_pow_suc k) in rw e (bit-pow_self k)

pub bit-pow_ne : (k j : ℕ) → k ≢ j → bit (2 ^ k) j ≡ 0
unfolding bit
bit-pow_ne zero zero h = absurd (h refl)
bit-pow_ne zero (suc j) h = bit-zero j
bit-pow_ne (suc k) zero h = omega (arith, two_pow_suc k)
bit-pow_ne (suc k) (suc j) h =
    let e : 2 ^ suc k / 2 ≡ 2 ^ k = omega (arith, two_pow_suc k) in
    rw e (bit-pow_ne k j (λ p. h (ap suc p)))

bit_and-zero_left : (b : ℕ) → bit_and 0 b ≡ 0
bit_and-zero_left b = bit_and-bitwise 0 b

bit_and-zero_below : (n a : ℕ) → a ≤ n → bit_and a 0 ≡ 0
bit_and-zero_below n zero h = refl
bit_and-zero_below zero (suc a) h = absurd (omega arith)
bit_and-zero_below (suc n) (suc a) h =
    omega (arith, bit_and_unfold (suc a) 0, bit_and-zero_below n (suc a / 2) (omega arith))

pub bit_and-zero : (a : ℕ) → bit_and a 0 ≡ 0
bit_and-zero a = bit_and-zero_below a a (omega arith)

bit_and-self_below : (n a : ℕ) → a ≤ n → bit_and a a ≡ a
bit_and-self_below n zero h = bit_and-zero_left 0
bit_and-self_below zero (suc a) h = absurd (omega arith)
bit_and-self_below (suc n) (suc a) h =
    omega (arith, bit_and_unfold (suc a) (suc a), bit_and-self_below n (suc a / 2) (omega arith))

pub bit_and_self : (a : ℕ) → bit_and a a ≡ a
bit_and_self a = bit_and-self_below a a (omega arith)

bit_and-le_below : (n a b : ℕ) → a ≤ n → bit_and a b ≤ a
bit_and-le_below n zero b h = omega (arith, bit_and-zero_left b)
bit_and-le_below zero (suc a) b h = absurd (omega arith)
bit_and-le_below (suc n) (suc a) b h =
    omega (arith, bit_and_unfold (suc a) b, bit_and-le_below n (suc a / 2) (b / 2) (omega arith))

pub bit_and-le : (a b : ℕ) → bit_and a b ≤ a
bit_and-le a b = bit_and-le_below a a b (omega arith)

-- `x & (1 << k)` is the bit, at its place.
pub bit_and-pow : (x k : ℕ) → bit_and x (2 ^ k) ≡ bit x k * 2 ^ k
unfolding bit
bit_and-pow x zero = omega (arith, bit_and_unfold x 1, bit_and-zero (x / 2))
bit_and-pow x (suc k) =
    let e : 2 ^ suc k / 2 ≡ 2 ^ k = omega (arith, two_pow_suc k) in
    let step : bit_and x (2 ^ suc k) ≡ bit_and (x / 2) (2 ^ k) * 2 =
      rw (← e) (omega (arith, bit_and_unfold x (2 ^ suc k), two_pow_suc k)) in
    rw (step, bit_and-pow (x / 2) k, two_pow_suc k) (grind arith)

pub and_not_unfold :
    (a b : ℕ) → and_not a b ≡ and_not (a / 2) (b / 2) * 2 + (a % 2 - min (a % 2) (b % 2))
unfolding and_not
and_not_unfold a b = omega (arith, bit_and_unfold a b, bit_and-le (a / 2) (b / 2))

pub bit-and_not : (a b k : ℕ) → bit (and_not a b) k ≡ bit a k - bit b k
unfolding bit
bit-and_not a b zero = omega (arith, and_not_unfold a b)
bit-and_not a b (suc k) =
    let e : and_not a b / 2 ≡ and_not (a / 2) (b / 2) = omega (arith, and_not_unfold a b) in
    rw e (bit-and_not (a / 2) (b / 2) k)
