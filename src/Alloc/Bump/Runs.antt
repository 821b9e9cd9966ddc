-- ===== src/Alloc/Bump/Runs.antt =====
-- internal/alloc/bump.go: any run of a linear pool, from `NewBump` on.
use accel.Base.{
  ℕ, zero, suc, ◌+◌, ◌≤◌, ◌<◌, ◌≡◌, refl, sym, subst, ◌∙◌, ◌⊎◌, inl, inr, false, some, List, [],
  ◌∷◌, arith, get_elem?, Bool-cases,
}
use accel.Base.Int64.{slt}
use accel.Base.Result.{Result, ok, err, ok-injective}
use accel.Alloc.{Allocation, Store}
use accel.Alloc.Params.{check_granularity, not_power}
use accel.Alloc.Params.Bounds.{IsSmall, not_power-IsPower}
use accel.Alloc.Bump.{Bump, new_bump, alloc, reset}
use accel.Alloc.Bump.Invariant.{Packed, Packed-length, IsValid}
use accel.Alloc.Bump.Place.{alloc-Post}
use accel.Alloc.Bump.Reset.{reset_lem}

-- What a client calls. `Free` changes nothing, and is left out.
pub data Op : Type 0 where
  request : ℕ → ℕ → Op
  rewind : Op

-- A refused request leaves the pool as it is.
unfoldable pub step : Bump → Store → Op → Bump × Store
step b s (request size align) = elim (alloc b s size align) [
  | ok (h, b', s') ↦ (b', s')
  | err _ ↦ (b, s)
]
step b s rewind = reset b s

unfoldable pub run : Bump → Store → List Op → Bump × Store
run b s [] = (b, s)
run b s (op ∷ ops) = let (b', s') = step b s op in run b' s' ops

-- No request is so large that its sums leave `int`.
abbrev pub AllSmall : List Op → Type 0
AllSmall [] = Unit
AllSmall (request size align ∷ ops) = IsSmall size × IsSmall align × AllSmall ops
AllSmall (rewind ∷ ops) = AllSmall ops

Result-cases {ℓ κ} :
    {E : Type ℓ} {A : Type κ} (r : Result E A) → ((a : A) × (r ≡ ok a)) ⊎ ((e : E) × (r ≡ err e))
Result-cases (ok a) = inl (a, refl)
Result-cases (err e) = inr (e, refl)

step_request :
    (b : Bump) (s : Store) (size align : ℕ)
    → IsValid b s
    → IsSmall size
    → IsSmall align
    → IsValid (step b s (request size align)).0 (step b s (request size align)).1
unfolding step
step_request b s size align v hs ha = elim (Result-cases (alloc b s size align)) [
  | inl ((h, b', s'), e) ↦ rw (e, step) (alloc-Post b s size align v hs ha e).0
  | inr (x, e) ↦ rw (e, step) v
]

step_rewind : (b : Bump) (s : Store) → IsValid b s → IsValid (step b s rewind).0 (step b s rewind).1
unfolding step
step_rewind b s v = (reset_lem b s v).0

run-IsValid :
    (ops : List Op) (b : Bump) (s : Store)
    → IsValid b s
    → AllSmall ops
    → IsValid (run b s ops).0 (run b s ops).1
unfolding run
run-IsValid [] b s v a = v
run-IsValid (request size align ∷ ops) b s v (hs, ha, a) =
    let r = step b s (request size align) in
    run-IsValid ops r.0 r.1 (step_request b s size align v hs ha) a
run-IsValid (rewind ∷ ops) b s v a =
    let r = step b s rewind in run-IsValid ops r.0 r.1 (step_rewind b s v) a

new_bump-IsValid :
    (self size granularity : ℕ) (s : Store) {b : Bump}
    → IsSmall size
    → new_bump self size granularity ≡ ok b
    → IsValid b s
unfolding new_bump check_granularity
new_bump-IsValid self size granularity s {b} h e = elim (Bool-cases (not_power granularity)) [
  | inl bad ↦ absurd (ground arith)
  | inr power ↦ elim (Bool-cases (slt size granularity)) [
    | inl bad ↦ absurd (ground arith)
    | inr room ↦
        let (pow, range) = not_power-IsPower granularity power in
        let le : granularity ≤ size = ground arith in
        subst (λ c. IsValid c s) (ok-injective (sym (made power room) ∙ e))
          (record {
            power = pow;
            small = h;
            room = le;
            within = omega arith;
            charged = refl;
            counted = refl;
            packed = omega arith;
          })
  ]
]
  where
    fresh : Bump
    fresh = record {
      allocator = record {
        self = self;
        size = size;
        granularity = granularity;
        used = 0;
        allocations = 0;
      };
      cursor = 0;
      live = [];
    }

    made :
        not_power granularity ≡ false
        → slt size granularity ≡ false
        → new_bump self size granularity ≡ ok fresh
    made p q = rw (p, q)

-- A live allocation lies in the packed range.
Packed_at :
    (s : Store) (self g lo : ℕ) (hs : List ℕ) (hi i h : ℕ) (a : Allocation)
    → Packed s self g lo hs hi
    → get_elem? hs i ≡ some h
    → get_elem? s h ≡ some a
    → (lo ≤ a.offset) × (a.offset + a.size ≤ hi)
Packed_at s self g lo [] hi i h a p e ea = cc
Packed_at s self g lo (x ∷ hs) hi zero h a (al, at, _, le, _, _, _, rest) e ea =
    let same : al ≡ a = cc in
    let ends = Packed-length s self g (al.offset + al.size) hs hi rest in rw (← same) (omega arith)
Packed_at s self g lo (x ∷ hs) hi (suc i) h a (al, at, _, le, _, _, _, rest) e ea =
    omega (arith, Packed_at s self g (al.offset + al.size) hs hi i h a rest e ea)

-- One placed after another ends before it.
Packed_apart :
    (s : Store) (self g lo : ℕ) (hs : List ℕ) (hi i j h k : ℕ) (a c : Allocation)
    → Packed s self g lo hs hi
    → i < j
    → get_elem? hs i ≡ some h
    → get_elem? hs j ≡ some k
    → get_elem? s h ≡ some a
    → get_elem? s k ≡ some c
    → a.offset + a.size ≤ c.offset
Packed_apart s self g lo [] hi i j h k a c p lt ei ej ea ec = cc
Packed_apart s self g lo (x ∷ hs) hi i zero h k a c p lt ei ej ea ec = absurd (omega arith)
Packed_apart s self g lo (x ∷ hs) hi zero (suc j) h k a c p lt ei ej ea ec =
    let (al, at, _, _, _, _, _, rest) = p in
    let same : al ≡ a = cc in
    rw (← same) (Packed_at s self g (al.offset + al.size) hs hi j k c rest ej ec).0
Packed_apart s self g lo (x ∷ hs) hi (suc i) (suc j) h k a c p lt ei ej ea ec =
    let (al, at, _, _, _, _, _, rest) = p in
    Packed_apart s self g (al.offset + al.size) hs hi i j h k a c rest (omega arith) ei ej ea ec

-- Every live allocation ends within the pool.
abbrev pub AllInside : Bump → Store → Type 0
AllInside b s =
    (i h : ℕ) (a : Allocation)
    → get_elem? b.live i ≡ some h
    → get_elem? s h ≡ some a
    → a.offset + a.size ≤ b.size

-- Of two live allocations the earlier ends where the later begins or before.
abbrev pub AllApart : Bump → Store → Type 0
AllApart b s =
    (i j h k : ℕ) (a c : Allocation)
    → i < j
    → get_elem? b.live i ≡ some h
    → get_elem? b.live j ≡ some k
    → get_elem? s h ≡ some a
    → get_elem? s k ≡ some c
    → a.offset + a.size ≤ c.offset

-- In every state that a run of requests and resets reaches from a new pool, where no size or
-- alignment is so large that its sums leave `int`: the invariant holds, every live allocation lies
-- inside the pool, and of two live allocations the earlier ends where the later begins or before.
pub run_apart :
    (self size granularity : ℕ) (s : Store) (ops : List Op) {b : Bump}
    → IsSmall size
    → AllSmall ops
    → new_bump self size granularity ≡ ok b
    → IsValid (run b s ops).0 (run b s ops).1
      × AllInside (run b s ops).0 (run b s ops).1
      × AllApart (run b s ops).0 (run b s ops).1
run_apart self size granularity s ops {b} hs all made =
    let (b', s') = run b s ops in
    let v = run-IsValid ops b s (new_bump-IsValid self size granularity s hs made) all in
    let g = b'.granularity in
    let p = v.packed in
    (
      v,
      λ i h a e ea.
          omega (arith, v.within, (Packed_at s' b'.self g 0 b'.live b'.cursor i h a p e ea).1),
      λ i j h k a c. Packed_apart s' b'.self g 0 b'.live b'.cursor i j h k a c p,
    )
