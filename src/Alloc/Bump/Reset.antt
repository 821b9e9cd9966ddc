-- ===== src/Alloc/Bump/Reset.antt =====
-- internal/alloc/bump.go: `Reset` retires every handle, and `Stats` of a valid pool.
use accel.Base.{
  ℕ, ◌+◌, ◌≡◌, ◌≢◌, refl, sym, ◌∙◌, ◌<◌, ◌⊎◌, inl, inr, none, some, List, [], ◌∷◌, arith, length,
  get_elem?, get_elem?-set_self, get_elem?-set_ne, IsIn, lt-length_of_get_elem?, Option-cases,
}
use native.Mathlib.Decide.{ℕ_discrete}
use accel.Base.Result.{err}
use accel.Alloc.{Allocation, Allocator, Store, double_free}
use accel.Alloc.Params.{check_owner}
use accel.Alloc.Bump.{Bump, retire, retire_all, reset, free, stats}
use accel.Alloc.Bump.Invariant.{IsValid}

-- No allocator owns the handle.
abbrev IsRetired : Store → ℕ → Type 0
IsRetired s h = (al : Allocation) → get_elem? s h ≡ some al → al.owner ≡ none

retire_self : (s : Store) (h : ℕ) → IsRetired (retire s h) h
unfolding retire
retire_self s h al e = elim (Option-cases (get_elem? s h)) [
  | inl miss ↦ ground arith
  | inr (old, at) ↦
      ground
        (arith, get_elem?-set_self s h (record old { owner = none }), lt-length_of_get_elem? s h at)
]

retire_other : (s : Store) (h k : ℕ) → h ≢ k → get_elem? (retire s h) k ≡ get_elem? s k
unfolding retire
retire_other s h k ne = elim (Option-cases (get_elem? s h)) [
  | inl miss ↦ ground arith
  | inr (old, at) ↦ ground (arith, get_elem?-set_ne s (record old { owner = none }) ne)
]

retire_keeps : (s : Store) (h k : ℕ) → IsRetired s k → IsRetired (retire s h) k
retire_keeps s h k r = elim (ℕ_discrete h k) [
  | yes e ↦ rw (← e) (retire_self s h)
  | no ne ↦ λ al e. r al (sym (retire_other s h k ne) ∙ e)
]

retire_all-keeps : (hs : List ℕ) (s : Store) (k : ℕ) → IsRetired s k → IsRetired (retire_all s hs) k
unfolding retire_all
retire_all-keeps [] s k r = r
retire_all-keeps (h ∷ hs) s k r = retire_all-keeps hs (retire s h) k (retire_keeps s h k r)

retire_all_mem : (hs : List ℕ) (s : Store) (k : ℕ) → IsIn k hs → IsRetired (retire_all s hs) k
unfolding retire_all
retire_all_mem [] s k m = absurd m
retire_all_mem (h ∷ hs) s k (inl e) = retire_all-keeps hs (retire s h) k (rw e (retire_self s h))
retire_all_mem (h ∷ hs) s k (inr m) = retire_all_mem hs (retire s h) k m

retired_refused :
    (a : Allocator) (s : Store) (k : ℕ) → IsRetired s k → check_owner a s (some k) ≡ err double_free
unfolding check_owner
retired_refused a s k r = elim (Option-cases (get_elem? s k)) [
  | inl miss ↦ ground arith
  | inr (al, at) ↦ ground (arith, r al at)
]

-- After `Reset` a valid pool is valid and empty, and every handle that it had given out and not
-- retired is refused, by `Free` too.
pub reset_lem :
    (b : Bump) (s : Store)
    → IsValid b s
    → IsValid (reset b s).0 (reset b s).1
      × ((reset b s).0.cursor ≡ 0)
      × ((h : ℕ) → IsIn h b.live → free (reset b s).0 (reset b s).1 (some h) ≡ err double_free)
unfolding reset free
reset_lem b s v = (
  record {
    power = v.power;
    small = v.small;
    room = v.room;
    within = omega arith;
    charged = refl;
    counted = refl;
    packed = omega arith;
  },
  refl,
  λ h m. rw (
      retired_refused (reset b s).0.allocator (retire_all s b.live) h
        (retire_all_mem b.live s h m)),
)

-- A linear pool cannot fragment. In the statistics of a valid one, what is free is the largest free
-- run, what is used and what is free make up the pool, the live allocations are counted, and what is
-- free is one block, or nothing and no block.
pub stats_lem :
    (b : Bump) (s : Store)
    → IsValid b s
    → ((stats b).free ≡ (stats b).largest_free)
      × ((stats b).used + (stats b).free ≡ b.size)
      × ((stats b).allocations ≡ length b.live)
      × ((((stats b).free ≡ 0) × ((stats b).blocks ≡ 0))
          ⊎ ((0 < (stats b).free) × ((stats b).blocks ≡ 1)))
unfolding stats
stats_lem b s v = ground arith
