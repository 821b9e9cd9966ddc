-- ===== src/TransientPool/Tests.antt =====
-- transientpool.go: a run with two graphs, the second of which makes the pool grow.
use accel.Base.{
  ℕ, suc, max, ◌≤◌, ◌≡◌, refl, inl, inr, true, false, Option, some, List, [], ◌∷◌, arith, IsIn,
}
use accel.TransientPool.{
  Device, new_transient_pool, free_block, grow, bought, reserve, release, begin, end_claim,
  drop_block, close, Op, reserve_op, release_op, begin_op, end_op, close_op, step, run, outcomes,
}
use accel.TransientPool.Blocks.{IsFresh, IsValid, run-IsValid}
use accel.TransientPool.Claims.{Exclusive, outcomes-Exclusive}

-- A driver that numbers its blocks past all that are allocated.
abbrev highest : List ℕ → ℕ
highest [] = 0
highest (b ∷ bs) = max b (highest bs)

abbrev next_block : List ℕ → ℕ → Option ℕ
next_block live n = some (suc (highest live))

IsIn-le_highest : (live : List ℕ) (b : ℕ) → IsIn b live → b ≤ highest live
IsIn-le_highest [] b i = absurd i
IsIn-le_highest (x ∷ live) b (inl e) = omega (arith, e)
IsIn-le_highest (x ∷ live) b (inr m) = omega (arith, IsIn-le_highest live b m)

next_block-IsFresh : IsFresh next_block
next_block-IsFresh live n b e i =
    let same : suc (highest live) ≡ b = cc in omega (arith, same, IsIn-le_highest live b i)

abbrev device : Device
device = record { blocks = []; implicit = 0; transient_pools = 0 }

abbrev two_graphs : List Op
two_graphs =
    reserve_op 100
    ∷ reserve_op 300
    ∷ begin_op
    ∷ begin_op
    ∷ reserve_op 10
    ∷ end_op
    ∷ begin_op
    ∷ end_op
    ∷ close_op
    ∷ release_op
    ∷ release_op
    ∷ close_op
    ∷ begin_op
    ∷ []

outcomes_of_two_graphs :
    outcomes next_block (new_transient_pool device) two_graphs
    ≡ (reserve_op 100, true)
      ∷ (reserve_op 300, true)
      ∷ (begin_op, true)
      ∷ (begin_op, false)
      ∷ (reserve_op 10, false)
      ∷ (end_op, true)
      ∷ (begin_op, true)
      ∷ (end_op, true)
      ∷ (close_op, false)
      ∷ (release_op, true)
      ∷ (release_op, true)
      ∷ (close_op, true)
      ∷ (begin_op, false)
      ∷ []
unfolding outcomes new_transient_pool step free_block grow bought reserve release begin end_claim
    drop_block close
outcomes_of_two_graphs = refl

run-IsValid_example : IsValid (run next_block (new_transient_pool device) two_graphs)
run-IsValid_example = run-IsValid next_block two_graphs 0 next_block-IsFresh

outcomes-Exclusive_example :
    Exclusive false (outcomes next_block (new_transient_pool device) two_graphs)
outcomes-Exclusive_example = outcomes-Exclusive next_block device two_graphs
