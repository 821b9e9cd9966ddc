-- ===== src/Base/Round.antt =====
-- Rounding up to a multiple, by a division and by a mask, and the test for a power of two.
use Prim.Native.Nat.{ℕ, zero, suc, ◌+◌, ◌-◌, ◌*◌, ◌/◌, ◌%◌, ◌^◌, ◌≤◌, ◌<◌, min, bit_and}
use mathlib.Core.Path.{◌≡◌, refl, sym, ap, ap₂, ◌∙◌}
use native.Mathlib.Nat.{
  div-div-eq-div-mul, div-add-mod', mod-lt, mul_comm, pow-le-pow_right, add-zero,
}
use native.Mathlib.Decide.{ℕ_discrete, dec_le}
use native.Mathlib.Omega.{arith}
use accel.Base.Bits.{bit_and_unfold}
use accel.Base.Words.{bit_and-zero, bit_and_self, and_not, and_not_unfold, two_pow_suc, two_pow_pos}

-- `n` is a multiple of `to`.
abbrev pub IsMultiple : ℕ → ℕ → Type 0
IsMultiple to n = (q : ℕ) × (n ≡ q * to)

-- What is known of the least multiple at or above `n`.
pub record RoundsUp (n to r : ℕ) : Type 0 where
  pub above : n ≤ r
  pub tight : r < n + to
  pub multiple : IsMultiple to r

pub div-RoundsUp : (n to : ℕ) → 0 < to → RoundsUp n to ((n + to - 1) / to * to)
div-RoundsUp n to h = record {
  above = omega (arith, div-add-mod' (n + to - 1) to, mod-lt (n + to - 1) h);
  tight = omega (arith, div-add-mod' (n + to - 1) to);
  multiple = ((n + to - 1) / to, refl);
}

-- Clearing the low bits rounds down.
pub and_not-mask : (k x : ℕ) → and_not x (2 ^ k - 1) ≡ x / 2 ^ k * 2 ^ k
unfolding and_not
and_not-mask zero x = omega (arith, bit_and-zero x)
and_not-mask (suc k) x =
    let e : (2 ^ suc k - 1) / 2 ≡ 2 ^ k - 1 = omega (arith, two_pow_suc k, two_pow_pos k) in
    let d : x / 2 ^ suc k ≡ x / 2 / 2 ^ k =
      ap (λ t. x / t) (two_pow_suc k ∙ mul_comm (2 ^ k) 2) ∙ sym (div-div-eq-div-mul x 2 (2 ^ k)) in
    let ih : and_not (x / 2) ((2 ^ suc k - 1) / 2) ≡ x / 2 / 2 ^ k * 2 ^ k =
      ap (and_not (x / 2)) e ∙ and_not-mask k (x / 2) in
    and_not_unfold x (2 ^ suc k - 1) ∙ rw (ih, d, two_pow_suc k) (omega (arith, two_pow_pos k))

-- The test `a & (a - 1) == 0` accepts only powers of two.
bit_and-pred_below : (n a : ℕ) → a ≤ n → 0 < a → bit_and a (a - 1) ≡ 0 → (k : ℕ) × (a ≡ 2 ^ k)
bit_and-pred_below zero a le pos h = absurd (omega arith)
bit_and-pred_below (suc n) a le pos h = elim (ℕ_discrete (a % 2) 0) [
  | yes even ↦
      let e : (a - 1) / 2 ≡ a / 2 - 1 = omega arith in
      let step : bit_and a (a - 1) ≡ bit_and (a / 2) (a / 2 - 1) * 2 + min (a % 2) ((a - 1) % 2) =
        rw e at (bit_and_unfold a (a - 1)) in
      let (k, p) = bit_and-pred_below n (a / 2) (omega arith) (omega arith) (omega arith) in
      (suc k, omega (arith, two_pow_suc k))
  | no odd ↦
      let e : (a - 1) / 2 ≡ a / 2 = omega arith in
      let step : bit_and a (a - 1) ≡ bit_and (a / 2) (a / 2) * 2 + min (a % 2) ((a - 1) % 2) =
        rw e at (bit_and_unfold a (a - 1)) in
      (0, omega (arith, bit_and_self (a / 2)))
]

pub bit_and-pred : (a : ℕ) → 0 < a → bit_and a (a - 1) ≡ 0 → (k : ℕ) × (a ≡ 2 ^ k)
bit_and-pred a = bit_and-pred_below a a (omega arith)

-- `(v + to - 1) &^ (to - 1)`, at a power of two.
pub mask-RoundsUp : (v k : ℕ) → RoundsUp v (2 ^ k) (and_not (v + 2 ^ k - 1) (2 ^ k - 1))
mask-RoundsUp v k = rw and_not-mask (div-RoundsUp v (2 ^ k) (two_pow_pos k))

power-IsMultiple : (j d : ℕ) → IsMultiple (2 ^ j) (2 ^ (j + d))
power-IsMultiple j zero = (1, rw add-zero (omega arith))
power-IsMultiple j (suc d) =
    let (q, e) = power-IsMultiple j d in
    let s : j + suc d ≡ suc (j + d) = omega arith in
    (q * 2, rw (s, two_pow_suc (j + d), e) (omega arith))

-- Of two powers of two the smaller divides the larger.
pub power-le-IsMultiple : (j k : ℕ) → 2 ^ j ≤ 2 ^ k → IsMultiple (2 ^ j) (2 ^ k)
power-le-IsMultiple j k h = elim (dec_le j k) [
  | yes le ↦ let e : j + (k - j) ≡ k = omega arith in rw e at (power-IsMultiple j (k - j))
  | no gt ↦ absurd (
      omega (
        arith,
        pow-le-pow_right {n = 2} (omega arith) {i = suc k} {j = j} (omega arith),
        two_pow_suc k,
        two_pow_pos k,
      ))
]

pub IsMultiple-trans : (a b c : ℕ) → IsMultiple a b → IsMultiple b c → IsMultiple a c
IsMultiple-trans a b c (q, e) (r, f) = (r * q, rw (f, e) (omega arith))

-- A power of two passes that test.
pub bit_and-pow_pred : (k : ℕ) → bit_and (2 ^ k) (2 ^ k - 1) ≡ 0
bit_and-pow_pred zero = bit_and-zero 1
bit_and-pow_pred (suc k) =
    let e : 2 ^ suc k / 2 ≡ 2 ^ k = omega (arith, two_pow_suc k) in
    let f : (2 ^ suc k - 1) / 2 ≡ 2 ^ k - 1 = omega (arith, two_pow_suc k, two_pow_pos k) in
    let step : bit_and (2 ^ suc k) (2 ^ suc k - 1)
        ≡ bit_and (2 ^ k) (2 ^ k - 1) * 2 + min (2 ^ suc k % 2) ((2 ^ suc k - 1) % 2) =
      bit_and_unfold (2 ^ suc k) (2 ^ suc k - 1)
      ∙ ap₂ (λ x y. bit_and x y * 2 + min (2 ^ suc k % 2) ((2 ^ suc k - 1) % 2)) e f in
    omega (arith, bit_and-pow_pred k, two_pow_suc k)
