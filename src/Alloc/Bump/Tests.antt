-- ===== src/Alloc/Bump/Tests.antt =====
-- internal/alloc/bump.go: the linear pool at concrete inputs.
use accel.Base.{
  ℕ, ◌+◌, ◌-◌, ◌^◌, ◌≤◌, ◌<◌, ◌≡◌, refl, max, ◌<◌, ◌⊎◌, none, some, List, [], ◌∷◌, arith, IsIn,
}
use accel.Base.Result.{ok, err}
use accel.Base.Words.{and_not}
use accel.Alloc.{Allocation, Store, no_space, double_free, unsupported}
use accel.Alloc.Params.{round_up, not_power, check_params, check_owner, check_granularity}
use accel.Alloc.Bump.{Bump, new_bump, place, alloc, free, retire, retire_all, reset, stats}
use accel.Alloc.Bump.Invariant.{IsValid}
use accel.Alloc.Bump.Place.{Post, alloc-Post, alloc_decides}
use accel.Alloc.Bump.Reset.{reset_lem, stats_lem}
use accel.Alloc.Bump.Runs.{Op, request, rewind, step, run, AllInside, AllApart, run_apart}
use accel.Alloc.Bump.Overflow.{alloc_overflow}

abbrev fresh : Bump
fresh = record {
  allocator = record { self = 7; size = 1024; granularity = 256; used = 0; allocations = 0 };
  cursor = 0;
  live = [];
}

-- After 300 bytes: two granules of 256.
abbrev first : Allocation
first = record { offset = 0; size = 512; blk = none; owner = some 7 }

abbrev one : Bump
one = record {
  allocator = record { self = 7; size = 1024; granularity = 256; used = 512; allocations = 1 };
  cursor = 512;
  live = 0 ∷ [];
}

one-IsValid : IsValid one (first ∷ [])
one-IsValid = record {
  power = (8, refl);
  small = omega arith;
  room = omega arith;
  within = omega arith;
  charged = refl;
  counted = refl;
  packed = (first, refl, refl, omega arith, omega arith, (0, refl), (2, refl), omega arith);
}

new_bump-fresh : new_bump 7 1024 256 ≡ ok fresh
unfolding new_bump check_granularity not_power
new_bump-fresh = refl

alloc-fresh : alloc fresh [] 300 4 ≡ ok (0, one, first ∷ [])
unfolding alloc check_params place round_up not_power and_not
alloc-fresh = refl

alloc-one_full : alloc one (first ∷ []) 300 1024 ≡ err no_space
unfolding alloc check_params place round_up not_power and_not
alloc-one_full = refl

free-one : free one (first ∷ []) (some 0) ≡ err unsupported
unfolding free check_owner
free-one = refl

fresh-IsValid : IsValid fresh []
fresh-IsValid = record {
  power = (8, refl);
  small = omega arith;
  room = omega arith;
  within = omega arith;
  charged = refl;
  counted = refl;
  packed = omega arith;
}

alloc-Post_example : Post fresh [] 300 4 (0, one, first ∷ [])
alloc-Post_example = alloc-Post fresh [] 300 4 fresh-IsValid (omega arith) (omega arith) alloc-fresh

alloc_decides_example :
    (round_up 512 (max 4 256) + round_up 100 256 ≤ 1024
      → (r : ℕ × Bump × Store) × (alloc one (first ∷ []) 100 4 ≡ ok r))
    × (1024 < round_up 512 (max 4 256) + round_up 100 256
        → alloc one (first ∷ []) 100 4 ≡ err no_space)
alloc_decides_example =
    alloc_decides one (first ∷ []) 100 4 one-IsValid (omega arith) (omega arith) (2, refl)
      (omega arith)

reset_lem_example :
    IsValid (reset one (first ∷ [])).0 (reset one (first ∷ [])).1
    × ((reset one (first ∷ [])).0.cursor ≡ 0)
    × ((h : ℕ)
        → IsIn h (0 ∷ [])
        → free (reset one (first ∷ [])).0 (reset one (first ∷ [])).1 (some h) ≡ err double_free)
reset_lem_example = reset_lem one (first ∷ []) one-IsValid

stats_lem_example :
    ((stats one).free ≡ (stats one).largest_free)
    × ((stats one).used + (stats one).free ≡ 1024)
    × ((stats one).allocations ≡ 1)
    × ((((stats one).free ≡ 0) × ((stats one).blocks ≡ 0))
        ⊎ ((0 < (stats one).free) × ((stats one).blocks ≡ 1)))
stats_lem_example = stats_lem one (first ∷ []) one-IsValid

abbrev script : List Op
script = request 300 4 ∷ rewind ∷ request 1 1 ∷ request 9 512 ∷ []

run_apart_example :
    IsValid (run fresh [] script).0 (run fresh [] script).1
    × AllInside (run fresh [] script).0 (run fresh [] script).1
    × AllApart (run fresh [] script).0 (run fresh [] script).1
run_apart_example = run_apart 7 1024 256 [] script (omega arith) (omega arith) new_bump-fresh

script_live : (run fresh [] script).0.live ≡ 1 ∷ 2 ∷ []
unfolding run step alloc check_params place round_up not_power and_not reset retire_all retire
script_live = refl

alloc_overflow_example :
    (r : ℕ × Bump × Store) × (alloc one (first ∷ []) (2 ^ 63 - 1) 4 ≡ ok r) × (2 ^ 63 ≤ r.1.cursor)
alloc_overflow_example =
    alloc_overflow one (first ∷ []) (2 ^ 63 - 1) 4 one-IsValid (omega arith) (omega arith) (2, refl)
      (omega arith)
