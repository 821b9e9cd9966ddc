-- ===== src/TransientPool/Claims.antt =====
-- transientpool.go: who may use the pool's memory.
use accel.Base.{
  ℕ, ◌≡◌, refl, subst, Option, none, some, Bool, true, false, List, [], ◌∷◌, if◌then◌else◌,
}
use accel.Base.Result.{Result}
use accel.Base.Int64.{slt}
use accel.TransientPool.{
  Device, new_transient_pool, State, Error, reserve, bought, grow, release, begin, end_claim, close,
  succeeded, Op, reserve_op, release_op, begin_op, end_op, close_op, step, outcomes,
}

-- While an execution has the pool, no other gets it and no build resizes it.
abbrev pub Exclusive : Bool → List (Op × Bool) → Type 0
Exclusive busy [] = Unit
Exclusive busy ((begin_op, true) ∷ log) = (busy ≡ false) × Exclusive true log
Exclusive busy ((reserve_op n, true) ∷ log) = (busy ≡ false) × Exclusive busy log
Exclusive busy ((end_op, r) ∷ log) = Exclusive false log
Exclusive busy (_ ∷ log) = Exclusive busy log

reserve_logged :
    (n : ℕ) (r busy : Bool) (log : List (Op × Bool))
    → (r ≡ true → busy ≡ false)
    → Exclusive busy log
    → Exclusive busy ((reserve_op n, r) ∷ log)
reserve_logged n true busy log h e = (h refl, e)
reserve_logged n false busy log h e = e

begin_logged :
    (r busy : Bool) (log : List (Op × Bool))
    → (r ≡ true → busy ≡ false)
    → Exclusive (if r then true else busy) log
    → Exclusive busy ((begin_op, r) ∷ log)
begin_logged true busy log h e = (h refl, e)
begin_logged false busy log h e = e

either :
    {X : Type 0} (P : X → Type 0) (c : Bool) (x y : X)
    → (c ≡ true → P x)
    → (c ≡ false → P y)
    → P (if c then x else y)
either P true x y h k = h refl
either P false x y h k = k refl

-- A call that leaves the claim as it is, and that succeeds only without one.
pub record Leaves {A : Type 0} (s : State) (q : Result Error A × State) : Type 0 where
  pub claim : q.1.pool.in_flight ≡ s.pool.in_flight
  pub free : succeeded q.0 ≡ true → s.pool.in_flight ≡ false

bought-Leaves :
    (s : State) (n : ℕ) (o : Option ℕ) → s.pool.in_flight ≡ false → Leaves s (bought s n o)
unfolding bought grow
bought-Leaves s n none idle = record { claim = refl; free = λ _. idle }
bought-Leaves s n (some b) idle = record { claim = refl; free = λ _. idle }

pub reserve-Leaves :
    (alloc : List ℕ → ℕ → Option ℕ) (s : State) (n : ℕ) → Leaves s (reserve alloc s n)
unfolding reserve
reserve-Leaves alloc s n =
    either (Leaves s) s.pool.closed _ _ (λ _. record { claim = refl; free = λ e. cc })
      (λ _.
        either (Leaves s) s.pool.in_flight _ _ (λ _. record { claim = refl; free = λ e. cc })
          (λ idle.
            either (Leaves s) (slt s.pool.bytes n) _ _ (λ _. bought-Leaves s n _ idle)
              (λ _. record { claim = refl; free = λ _. idle })))

-- A call that takes the claim when it succeeds, which it does only without one.
pub record Takes {A : Type 0} (s : State) (q : Result Error A × State) : Type 0 where
  pub claim : q.1.pool.in_flight ≡ (if succeeded q.0 then true else s.pool.in_flight)
  pub free : succeeded q.0 ≡ true → s.pool.in_flight ≡ false

pub begin-Takes : (s : State) → Takes s (begin s)
unfolding begin
begin-Takes s =
    either (Takes s) s.pool.closed _ _ (λ _. record { claim = refl; free = λ e. cc })
      (λ _.
        either (Takes s) s.pool.in_flight _ _ (λ _. record { claim = refl; free = λ e. cc })
          (λ idle. record { claim = refl; free = λ _. idle }))

pub close_claim : (s : State) → (close s).1.pool.in_flight ≡ s.pool.in_flight
unfolding close
close_claim s =
    let Same = λ (q : Result Error (Unit {0}) × State). q.1.pool.in_flight ≡ s.pool.in_flight in
    either Same s.pool.closed _ _ (λ _. refl)
      (λ _. either Same (slt 0 s.pool.graphs) _ _ (λ _. refl) (λ _. refl))

outcomes_from :
    (alloc : List ℕ → ℕ → Option ℕ) (ops : List Op) (s : State)
    → Exclusive s.pool.in_flight (outcomes alloc s ops)
unfolding outcomes step release end_claim
outcomes_from alloc [] s = _
outcomes_from alloc (reserve_op n ∷ ops) s =
    let l = reserve-Leaves alloc s n in
    let s' = (reserve alloc s n).1 in
    reserve_logged n (succeeded (reserve alloc s n).0) s.pool.in_flight (outcomes alloc s' ops)
      l.free (subst (λ c. Exclusive c (outcomes alloc s' ops)) l.claim (outcomes_from alloc ops s'))
outcomes_from alloc (begin_op ∷ ops) s =
    let t = begin-Takes s in
    let s' = (begin s).1 in
    begin_logged (succeeded (begin s).0) s.pool.in_flight (outcomes alloc s' ops) t.free
      (subst (λ c. Exclusive c (outcomes alloc s' ops)) t.claim (outcomes_from alloc ops s'))
outcomes_from alloc (release_op ∷ ops) s = outcomes_from alloc ops (release s)
outcomes_from alloc (end_op ∷ ops) s = outcomes_from alloc ops (end_claim s)
outcomes_from alloc (close_op ∷ ops) s =
    subst (λ c. Exclusive c (outcomes alloc (close s).1 ops)) (close_claim s)
      (outcomes_from alloc ops (close s).1)

-- In what any calls of a new pool return, between one execution that got the pool and the end of
-- it no other execution gets the pool, and no build reserves memory in it.
pub outcomes-Exclusive :
    (alloc : List ℕ → ℕ → Option ℕ) (d : Device) (ops : List Op)
    → Exclusive false (outcomes alloc (new_transient_pool d) ops)
unfolding new_transient_pool
outcomes-Exclusive alloc d ops = outcomes_from alloc ops (new_transient_pool d)
