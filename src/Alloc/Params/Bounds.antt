-- ===== src/Alloc/Params/Bounds.antt =====
-- internal/alloc/alloc.go: what `checkParams` and `roundUp` give for requests that do not overflow.
use native.Mathlib.Decide.{dec_le}
use accel.Base.{
  ap, if◌then◌else◌, ℕ, ◌+◌, ◌-◌, ◌^◌, ◌≤◌, ◌<◌, max, not, ◌||◌, ◌==◌, ◌≡◌, inl, inr, false,
  bit_and, arith, Bool-cases,
}
use accel.Base.Int64.{add64, sub64, slt, not_positive}
use accel.Base.Result.{ok}
use accel.Base.Round.{
  IsMultiple, power-le-IsMultiple, RoundsUp, mask-RoundsUp, bit_and-pred, bit_and-pow_pred,
}
use accel.Base.Words.{two_pow_pos}
use accel.Alloc.{Allocator}
use accel.Alloc.Params.{round_up, not_power, check_params}

abbrev pub IsPower : ℕ → Type 0
IsPower a = (k : ℕ) × (a ≡ 2 ^ k)

-- Up to 2^61 no sum of a handful of sizes reaches the sign bit.
abbrev pub IsSmall : ℕ → Type 0
IsSmall a = a ≤ 2 ^ 61

pub round_up-RoundsUp :
    (v to : ℕ) → IsPower to → v ≤ 2 ^ 62 → IsSmall to → RoundsUp v to (round_up v to)
unfolding round_up
round_up-RoundsUp v to (k, e) hv ht =
    let pos : 0 < to = omega (arith, two_pow_pos k) in
    let a : sub64 (add64 v to) 1 ≡ v + to - 1 = omega arith in
    let b : sub64 to 1 ≡ to - 1 = omega arith in rw (a, b, e) (mask-RoundsUp v k)

pub not_power-IsPower : (a : ℕ) → not_power a ≡ false → IsPower a × (a < 2 ^ 63)
unfolding not_power
not_power-IsPower a h =
    let range : (0 < a) × (a < 2 ^ 63) = ground arith in
    let pred : sub64 a 1 ≡ a - 1 = omega arith in
    let zero_and : bit_and a (a - 1) ≡ 0 = rw pred at (lemma h) in
    (bit_and-pred a range.0 zero_and, range.1)
  where
    lemma : (not_positive a || not (bit_and a (sub64 a 1) == 0)) ≡ false → bit_and a (sub64 a 1) ≡ 0
    lemma e = ground arith

-- A request that passes the checks, and what it is served with.
pub record Served (a : Allocator) (size align size' align' : ℕ) : Type 0 where
  pub positive : 0 < size
  pub power : IsPower align
  pub power' : IsPower align'
  pub rounded : RoundsUp size a.granularity size'
  pub raised : align' ≡ max align a.granularity

raise-eq-max :
    (align g : ℕ) → align < 2 ^ 63 → IsSmall g → (if slt align g then g else align) ≡ max align g
raise-eq-max align g h k = ground arith

pub max-IsPower : (a b : ℕ) → IsPower a → IsPower b → IsPower (max a b)
max-IsPower a b p q = elim (dec_le a b) [
  | yes h ↦ let e : max a b ≡ b = omega arith in rw e q
  | no h ↦ let e : max a b ≡ a = omega arith in rw e p
]

pub check_params-Served :
    (a : Allocator) (size align : ℕ) {size' align' : ℕ}
    → IsPower a.granularity
    → IsSmall a.granularity
    → IsSmall size
    → check_params a size align ≡ ok (size', align')
    → Served a size align size' align'
unfolding check_params
check_params-Served a size align {size'} {align'} p hg hs e =
    elim (Bool-cases (not_positive size)) [
      | inl bad ↦ absurd (ground arith)
      | inr good ↦ elim (Bool-cases (not_power align)) [
        | inl bad ↦ absurd (ground arith)
        | inr power ↦
            let (pow, range) = not_power-IsPower align power in
            let parts : (size' ≡ round_up size a.granularity) × (align' ≡ max align a.granularity) =
              ground (arith, raise-eq-max align a.granularity range hg) in
            record {
              positive = ground arith;
              power = pow;
              power' = rw parts.1 (max-IsPower align a.granularity pow p);
              rounded = rw parts.0 (round_up-RoundsUp size a.granularity p (omega arith) hg);
              raised = parts.1;
            }
      ]
    ]

-- The alignment served is a multiple of the granularity.
pub Served-IsMultiple :
    (a : Allocator) (size align : ℕ) {size' align' : ℕ}
    → IsPower a.granularity
    → Served a size align size' align'
    → IsMultiple a.granularity align'
Served-IsMultiple a size align {size'} {align'} (j, e) v =
    let (k, f) = v.power' in
    rw (e, f) (power-le-IsMultiple j k (rw (← e, ← f) (omega (arith, v.raised))))

-- It is a multiple of the alignment asked for, too.
pub Served-stricter :
    (a : Allocator) (size align : ℕ) {size' align' : ℕ}
    → Served a size align size' align'
    → IsMultiple align align'
Served-stricter a size align {size'} {align'} v =
    let (j, e) = v.power in
    let (k, f) = v.power' in
    rw (e, f) (power-le-IsMultiple j k (rw (← e, ← f) (omega (arith, v.raised))))

IsPower-not_power : (a : ℕ) → IsPower a → IsSmall a → not_power a ≡ false
unfolding not_power
IsPower-not_power a (k, e) h =
    let pos : 0 < a = omega (arith, two_pow_pos k) in
    let zero_and : bit_and a (a - 1) ≡ 0 = rw e (bit_and-pow_pred k) in
    let pred : sub64 a 1 ≡ a - 1 = omega arith in rw (pred, zero_and) (ground arith)

-- No other request is refused.
pub check_params-ok :
    (a : Allocator) (size align : ℕ)
    → IsSmall a.granularity
    → 0 < size
    → size < 2 ^ 63
    → IsPower align
    → IsSmall align
    → check_params a size align ≡ ok (round_up size a.granularity, max align a.granularity)
unfolding check_params
check_params-ok a size align hg pos hs p ha =
    let positive : not_positive size ≡ false = ground arith in
    rw (positive, IsPower-not_power align p ha)
      (ap (λ k. ok (round_up size a.granularity, k))
        (raise-eq-max align a.granularity (omega arith) hg))
