-- ===== src/Alloc.antt =====
-- internal/alloc/alloc.go: what the two allocators share. Sizes, offsets and alignments are Go's
-- `int`, kept as 64-bit patterns. An `*Allocation` is an index into a store of all that were ever
-- made, so that the `owner` of a handle can be cleared behind the back of who holds it.
pub mod Params
pub mod Bump
use accel.Base.{ℕ, ◌≡◌, Bool, Option, none, some, List}
use accel.Base.Result.{Result, ok, err}

pub data Error : Type 0 where
  size_not_positive align_not_power granularity_not_power pool_too_small : Error
  no_space double_free unsupported : Error

-- `owner` is the identity of the allocator that placed it, `none` once it is retired.
pub record Allocation : Type 0 where
  pub offset : ℕ
  pub size : ℕ
  pub blk : Option ℕ
  pub owner : Option ℕ

pub record Stats : Type 0 where
  pub size : ℕ
  pub used : ℕ
  pub free : ℕ
  pub largest_free : ℕ
  pub allocations : ℕ
  pub blocks : ℕ

-- `allocator`, with the identity `self` that its address is.
pub record Allocator : Type 0 where
  pub self : ℕ
  pub size : ℕ
  pub granularity : ℕ
  pub used : ℕ
  pub allocations : ℕ

abbrev pub Store : Type 0
Store = List Allocation
