-- ===== src/Alloc/Params.antt =====
-- internal/alloc/alloc.go: the checks that both allocators make of a request.
pub mod Bounds
use accel.Base.{
  ℕ, ◌^◌, Bool, true, false, not, ◌||◌, Option, none, some, bit_and, ltb, ◌==◌, if◌then◌else◌,
  get_elem?,
}
use accel.Base.Int64.{add64, sub64, slt, not_positive}
use accel.Base.Result.{Result, ok, err, ◌>>=◌, ◌>>◌, fail_if}
use accel.Base.Words.{and_not}
use accel.Alloc.{
  Error, size_not_positive, align_not_power, granularity_not_power, pool_too_small, double_free,
  Allocation, Allocator, Store,
}

-- `(v + to - 1) &^ (to - 1)`
unfoldable pub round_up : ℕ → ℕ → ℕ
round_up v to = and_not (sub64 (add64 v to) 1) (sub64 to 1)

-- `a <= 0 || a & (a - 1) != 0`
unfoldable pub not_power : ℕ → Bool
not_power a = not_positive a || not (bit_and a (sub64 a 1) == 0)

-- The size and the alignment that the request is served with.
unfoldable pub check_params : Allocator → ℕ → ℕ → Result Error (ℕ × ℕ)
check_params a size align = do
  fail_if (not_positive size) size_not_positive
  fail_if (not_power align) align_not_power
  let align' = if slt align a.granularity then a.granularity else align
  ok (round_up size a.granularity, align')

-- Whether the handle's `owner` pointer is this allocator.
abbrev pub owned_by : ℕ → Option ℕ → Bool
owned_by self none = false
owned_by self (some o) = o == self

-- A handle is `none` for a nil pointer, and else an index into the store.
unfoldable pub check_owner : Allocator → Store → Option ℕ → Result Error Allocation
check_owner a store none = err double_free
check_owner a store (some h) = elim (get_elem? store h) [
  | none ↦ err double_free
  | some al ↦ if owned_by a.self al.owner then ok al else err double_free
]

unfoldable pub check_granularity : ℕ → ℕ → Result Error (Unit {0})
check_granularity size granularity = do
  fail_if (not_power granularity) granularity_not_power
  fail_if (slt size granularity) pool_too_small
