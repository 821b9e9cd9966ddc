-- ===== src/Alloc/Bump.antt =====
-- internal/alloc/bump.go: the linear allocator. A method takes the `Bump` and the store of
-- allocations, and returns them beside its result.
pub mod Invariant
pub mod Place
pub mod Reset
pub mod Runs
pub mod Overflow
mod Tests
use accel.Base.{
  ℕ, ◌≡◌, Bool, Option, none, some, List, [], ◌∷◌, ◌++◌, if◌then◌else◌, ◌==◌, length, get_elem?,
  set,
}
use accel.Base.Int64.{add64, sub64, slt}
use accel.Base.Result.{Result, ok, err, ◌>>=◌, ◌>>◌, fail_if}
use accel.Alloc.{Error, no_space, unsupported, Allocation, Allocator, Stats, Store}
use accel.Alloc.Params.{round_up, check_params, check_owner, check_granularity}

pub record Bump : Type 0 where
  pub allocator : Allocator
  pub open allocator use *
  pub cursor : ℕ
  pub live : List ℕ

-- `NewBump`, at the address `self`.
unfoldable pub new_bump : ℕ → ℕ → ℕ → Result Error Bump
new_bump self size granularity = do
  check_granularity size granularity
  ok (record {
    allocator = record {
      self = self;
      size = size;
      granularity = granularity;
      used = 0;
      allocations = 0;
    };
    cursor = 0;
    live = [];
  })

-- `Alloc` past the checks of the request, which leave `size` and `align` rounded.
unfoldable pub place : Bump → Store → ℕ → ℕ → Result Error (ℕ × Bump × Store)
place b store size align =
    let offset = round_up b.cursor align in
    let end = add64 offset size in
    if slt b.size end
    then err no_space
    else ok (
      length store,
      record b {
        allocator = record (b.allocator) {
          used = add64 b.used (sub64 end b.cursor);
          allocations = add64 b.allocations 1;
        };
        cursor = end;
        live = b.live ++ length store ∷ [];
      },
      store ++ record { offset = offset; size = size; blk = none; owner = some b.self } ∷ [],
    )

unfoldable pub alloc : Bump → Store → ℕ → ℕ → Result Error (ℕ × Bump × Store)
alloc b store size align = do
  (size', align') ← check_params b.allocator size align
  place b store size' align'

-- A free is refused, the handle's own faults first.
unfoldable pub free : Bump → Store → Option ℕ → Result Error (Unit {0})
free b store h = do _ ← check_owner b.allocator store h; err unsupported

-- `a.owner = nil`
unfoldable pub retire : Store → ℕ → Store
retire store h = elim (get_elem? store h) [
  | none ↦ store
  | some al ↦ set store h (record al { owner = none })
]

unfoldable pub retire_all : Store → List ℕ → Store
retire_all store [] = store
retire_all store (h ∷ hs) = retire_all (retire store h) hs

unfoldable pub reset : Bump → Store → Bump × Store
reset b store = (
  record { allocator = record (b.allocator) { used = 0; allocations = 0 }; cursor = 0; live = [] },
  retire_all store b.live,
)

unfoldable pub stats : Bump → Stats
stats b =
    let remaining = sub64 b.size b.cursor in
    record {
      size = b.size;
      used = b.used;
      free = sub64 b.size b.used;
      largest_free = remaining;
      allocations = b.allocations;
      blocks = if remaining == 0 then 0 else 1;
    }
