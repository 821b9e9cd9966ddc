-- ===== src/TransientPool.antt =====
-- transientpool.go: the memory that several graphs share. The device is what the pool changes of it,
-- the driver's blocks that are allocated for this pool among them; `alloc` is the driver's `Alloc`,
-- from the blocks that are allocated and a size to a new block. The pool's `*poolBlock` is `none` for
-- nil, and else what the wrapper holds. Counts and sizes are Go's `int`, as 64-bit patterns.
pub mod Blocks
pub mod Claims
mod Tests
use accel.Base.{
  ℕ, Bool, true, false, not, Option, none, some, List, [], ◌∷◌, ◌==◌, if◌then◌else◌, keep,
}
use accel.Base.Int64.{add64, sub64, slt}
use accel.Base.Result.{Result, ok, err}

pub data Error : Type 0 where
  pool_closed pool_in_flight no_memory still_shared : Error

pub record Device : Type 0 where
  pub blocks : List ℕ
  pub implicit : ℕ
  pub transient_pools : ℕ

pub record TransientPool : Type 0 where
  pub block : Option (Option ℕ)
  pub bytes : ℕ
  pub graphs : ℕ
  pub in_flight : Bool
  pub closed : Bool

pub record State : Type 0 where
  pub device : Device
  pub pool : TransientPool

-- `NewTransientPool` on an open device.
unfoldable pub new_transient_pool : Device → State
new_transient_pool d = record {
  device = record d { transient_pools = add64 d.transient_pools 1 };
  pool = record { block = none; bytes = 0; graphs = 0; in_flight = false; closed = false };
}

-- What the wrapper held, by `swap`.
abbrev pub inner : Option (Option ℕ) → Option ℕ
inner none = none
inner (some b) = b

-- `b.Free()` and `countImplicit(-1)` on a block, and nothing on nil.
unfoldable pub free_block : Option ℕ → Device → Device
free_block none d = d
free_block (some b) d = record d {
  blocks = keep (λ x. not (x == b)) d.blocks;
  implicit = sub64 d.implicit 1;
}

-- The pool's new block stands in the wrapper before the old one is freed.
unfoldable pub grow : State → ℕ → ℕ → State
grow s n b = record {
  device =
      free_block (inner s.pool.block)
        (record (s.device) { blocks = b ∷ s.device.blocks; implicit = add64 s.device.implicit 1 });
  pool = record (s.pool) { block = some (some b); bytes = n; graphs = add64 s.pool.graphs 1 };
}

-- What is done with the driver's answer to `Alloc`.
unfoldable pub bought : State → ℕ → Option ℕ → Result Error (Option (Option ℕ)) × State
bought s n none = (err no_memory, s)
bought s n (some b) = (ok (some (some b)), grow s n b)

unfoldable pub reserve :
    (List ℕ → ℕ → Option ℕ) → State → ℕ → Result Error (Option (Option ℕ)) × State
reserve alloc s n =
    if s.pool.closed
    then (err pool_closed, s)
    else if s.pool.in_flight
    then (err pool_in_flight, s)
    else if slt s.pool.bytes n
    then bought s n (alloc s.device.blocks n)
    else (ok s.pool.block, record s { pool = record (s.pool) { graphs = add64 s.pool.graphs 1 } })

unfoldable pub release : State → State
release s = record s { pool = record (s.pool) { graphs = sub64 s.pool.graphs 1 } }

unfoldable pub begin : State → Result Error (Unit {0}) × State
begin s =
    if s.pool.closed
    then (err pool_closed, s)
    else if s.pool.in_flight
    then (err pool_in_flight, s)
    else (ok tt, record s { pool = record (s.pool) { in_flight = true } })

unfoldable pub end_claim : State → State
end_claim s = record s { pool = record (s.pool) { in_flight = false } }

-- A block that is left in the wrapper is freed, and the wrapper's own count goes down by one.
unfoldable pub drop_block : Option (Option ℕ) → Device → Device
drop_block none d = d
drop_block (some none) d = record d { implicit = sub64 d.implicit 1 }
drop_block (some (some b)) d = free_block (some b) d

unfoldable pub close : State → Result Error (Unit {0}) × State
close s =
    if s.pool.closed
    then (ok tt, s)
    else if slt 0 s.pool.graphs
    then (err still_shared, s)
    else let d = drop_block s.pool.block s.device in
      (
        ok tt,
        record {
          device = record d { transient_pools = sub64 d.transient_pools 1 };
          pool = record (s.pool) { block = none; bytes = 0; closed = true };
        },
      )

-- A call of the pool.
pub data Op : Type 0 where
  reserve_op : ℕ → Op
  release_op begin_op end_op close_op : Op

abbrev pub succeeded : {A : Type 0} → Result Error A → Bool
succeeded (ok a) = true
succeeded (err e) = false

-- Whether the call succeeded, and the state after it.
unfoldable pub step : (List ℕ → ℕ → Option ℕ) → State → Op → Bool × State
step alloc s (reserve_op n) = let (r, s') = reserve alloc s n in (succeeded r, s')
step alloc s release_op = (true, release s)
step alloc s begin_op = let (r, s') = begin s in (succeeded r, s')
step alloc s end_op = (true, end_claim s)
step alloc s close_op = let (r, s') = close s in (succeeded r, s')

unfoldable pub run : (List ℕ → ℕ → Option ℕ) → State → List Op → State
run alloc s [] = s
run alloc s (o ∷ os) = run alloc (step alloc s o).1 os

-- The calls of a run with their outcomes.
unfoldable pub outcomes : (List ℕ → ℕ → Option ℕ) → State → List Op → List (Op × Bool)
outcomes alloc s [] = []
outcomes alloc s (o ∷ os) = let (r, s') = step alloc s o in (o, r) ∷ outcomes alloc s' os
