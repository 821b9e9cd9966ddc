-- ===== src/Alloc/Bump/Overflow.antt =====
-- internal/alloc/alloc.go and bump.go: a size within one granule of the largest `int`.
use accel.Base.{
  none, some, [], ◌∷◌, ◌++◌, max, ℕ, ◌+◌, ◌-◌, ◌*◌, ◌/◌, ◌^◌, ◌≤◌, ◌<◌, ◌≡◌, sym, ◌∙◌, false, arith,
  length,
}
use native.Mathlib.Nat.{add-mul-div_right, div-eq_of_lt}
use accel.Base.Int64.{add64, sub64, slt}
use accel.Base.Result.{ok}
use accel.Base.Words.{two_pow_pos}
use accel.Base.Round.{and_not-mask, power-le-IsMultiple}
use accel.Alloc.{Store}
use accel.Alloc.Params.{round_up}
use accel.Alloc.Params.Bounds.{IsPower, IsSmall, max-IsPower, check_params-ok, round_up-RoundsUp}
use accel.Alloc.Bump.{Bump, place, alloc}
use accel.Alloc.Bump.Invariant.{IsValid}

round_down : (k q r : ℕ) → r < 2 ^ k → (q * 2 ^ k + r) / 2 ^ k * 2 ^ k ≡ q * 2 ^ k
round_down k q r h =
    let a : q * 2 ^ k + r ≡ r + q * 2 ^ k = omega arith in
    let z : r / 2 ^ k ≡ 0 = div-eq_of_lt h in
    rw (a, add-mul-div_right r q (two_pow_pos k), z) (omega arith)

-- Rounding such a size up leaves the smallest `int`.
pub round_up_overflow :
    (v g : ℕ) → IsPower g → IsSmall g → 2 ^ 63 - g < v → v < 2 ^ 63 → round_up v g ≡ 2 ^ 63
unfolding round_up
round_up_overflow v g (k, e) hg lo hi =
    let (q, m) = power-le-IsMultiple k 63 (omega arith) in
    let sum : sub64 (add64 v g) 1 ≡ q * 2 ^ k + (v + g - 1 - 2 ^ 63) = omega arith in
    let mask : sub64 g 1 ≡ 2 ^ k - 1 = omega (arith, two_pow_pos k) in
    rw (sum, mask, and_not-mask k (q * 2 ^ k + (v + g - 1 - 2 ^ 63)))
      (round_down k q (v + g - 1 - 2 ^ 63) (omega arith) ∙ sym m)

place_overflow :
    (b : Bump) (s : Store) (align : ℕ)
    → IsSmall b.size
    → round_up b.cursor align < 2 ^ 62
    → (r : ℕ × Bump × Store) × (place b s (2 ^ 63) align ≡ ok r) × (2 ^ 63 ≤ r.1.cursor)
unfolding place
place_overflow b s align hs ho =
    let offset = round_up b.cursor align in
    let end = add64 offset (2 ^ 63) in
    let passes : slt b.size end ≡ false = ground arith in
    (
      (
        length s,
        record b {
          allocator = record (b.allocator) {
            used = add64 b.used (sub64 end b.cursor);
            allocations = add64 b.allocations 1;
          };
          cursor = end;
          live = b.live ++ length s ∷ [];
        },
        s ++ record { offset = offset; size = 2 ^ 63; blk = none; owner = some b.self } ∷ [],
      ),
      rw passes,
      omega arith,
    )

-- A request for nearly `2 ^ 63` bytes is granted by a pool of any size: the rounded size is
-- negative, and so is the cursor that it leaves.
pub alloc_overflow :
    (b : Bump) (s : Store) (size align : ℕ)
    → IsValid b s
    → 2 ^ 63 - b.granularity < size
    → size < 2 ^ 63
    → IsPower align
    → IsSmall align
    → (r : ℕ × Bump × Store) × (alloc b s size align ≡ ok r) × (2 ^ 63 ≤ r.1.cursor)
unfolding alloc
alloc_overflow b s size align v lo hi p ha =
    let g = b.granularity in
    let hg : IsSmall g = omega (arith, v.room, v.small) in
    let checked = check_params-ok b.allocator size align hg (omega arith) hi p ha in
    let up = round_up_overflow size g v.power hg lo hi in
    let l : IsSmall (max align g) = omega arith in
    let at =
      round_up-RoundsUp b.cursor (max align g) (max-IsPower align g p v.power)
        (omega (arith, v.within, v.small)) l in
    let (r, e, neg) =
      place_overflow b s (max align g) v.small (omega (arith, at.tight, v.within, v.small)) in
    (r, rw (checked, up) e, neg)
