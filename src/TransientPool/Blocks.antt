-- ===== src/TransientPool/Blocks.antt =====
-- transientpool.go: which of the driver's blocks are allocated.
use accel.Base.{
  ℕ, ◌≡◌, ◌≢◌, refl, sym, ap, ◌∙◌, inl, Bool, true, false, not, Option, none, some, List, [], ◌∷◌,
  ◌==◌, if◌then◌else◌, keep, IsIn, arith, length, ==_iff, subst,
}
use accel.Base.Int64.{add64, slt}
use accel.TransientPool.{
  Device, State, new_transient_pool, inner, free_block, grow, bought, reserve, release, begin,
  end_claim, drop_block, close, Op, reserve_op, release_op, begin_op, end_op, close_op, step, run,
}

-- `Alloc` returns a block that is not allocated already.
abbrev pub IsFresh : (List ℕ → ℕ → Option ℕ) → Type 0
IsFresh alloc = (live : List ℕ) (n b : ℕ) → alloc live n ≡ some b → IsIn b live → ⊥

abbrev pub held : Option (Option ℕ) → List ℕ
held (some (some b)) = b ∷ []
held _ = []

-- The pool's block is the only one, the device counts it, and a closed pool has none.
pub record IsValid (s : State) : Type 0 where
  pub blocks : s.device.blocks ≡ held s.pool.block
  pub wrapped : s.pool.block ≢ some none
  pub counted : s.device.implicit ≡ length s.device.blocks
  pub dropped : s.pool.closed ≡ true → s.pool.block ≡ none

-- One block is allocated, the device counts it, and it is the one that the new wrapper holds.
record Single (d : Device) (b : ℕ) : Type 0 where
  only : d.blocks ≡ b ∷ []
  one : d.implicit ≡ 1

abbrev charged : Device → ℕ → Device
charged d b = record d { blocks = b ∷ d.blocks; implicit = add64 d.implicit 1 }

keep_new : (b c : ℕ) → b ≢ c → keep (λ x. not (x == c)) (b ∷ c ∷ []) ≡ b ∷ []
keep_new b c ne =
    let other : (b == c) ≡ false = ground (arith, ==_iff b c) in
    let self : (c == c) ≡ true = (==_iff c c).1 refl in rw (other, self) refl

grown-Single :
    (o : Option (Option ℕ)) (d : Device) (b : ℕ)
    → d.blocks ≡ held o
    → o ≢ some none
    → d.implicit ≡ length d.blocks
    → (IsIn b d.blocks → ⊥)
    → Single (free_block (inner o) (charged d b)) b
unfolding free_block
grown-Single none d b e w c fresh = record {
  only = ap (λ l. b ∷ l) e;
  one = omega (arith, c, ap (length {A = ℕ}) e);
}
grown-Single (some none) d b e w c fresh = absurd (w refl)
grown-Single (some (some a)) d b e w c fresh = record {
  only =
      ap (λ l. keep (λ x. not (x == a)) (b ∷ l)) e
      ∙ keep_new b a (λ p. fresh (subst (IsIn b) (sym e) (inl p)));
  one = omega (arith, c, ap (length {A = ℕ}) e);
}

grow-IsValid :
    (s : State) (n b : ℕ)
    → IsValid s
    → s.pool.closed ≡ false
    → (IsIn b s.device.blocks → ⊥)
    → IsValid (grow s n b)
unfolding grow
grow-IsValid s n b v open_pool fresh =
    let g = grown-Single s.pool.block s.device b v.blocks v.wrapped v.counted fresh in
    record {
      blocks = g.only;
      wrapped = λ e. cc;
      counted = g.one ∙ sym (ap (length {A = ℕ}) g.only);
      dropped = λ e. cc;
    }

-- Nothing is left of a pool's block once it is dropped.
dropped_empty :
    (o : Option (Option ℕ)) (d : Device)
    → d.blocks ≡ held o
    → o ≢ some none
    → d.implicit ≡ length d.blocks
    → ((drop_block o d).blocks ≡ []) × ((drop_block o d).implicit ≡ 0)
unfolding drop_block free_block
dropped_empty none d e w c = (e, c ∙ ap (length {A = ℕ}) e)
dropped_empty (some none) d e w c = absurd (w refl)
dropped_empty (some (some a)) d e w c =
    let self : (a == a) ≡ true = (==_iff a a).1 refl in
    (ap (keep (λ x. not (x == a))) e ∙ rw self refl, omega (arith, c, ap (length {A = ℕ}) e))

-- What holds of the state on both branches.
pub branches :
    {R S : Type 0} (P : S → Type 0) (c : Bool) (x y : R × S)
    → (c ≡ true → P x.1)
    → (c ≡ false → P y.1)
    → P (if c then x else y).1
branches P true x y h k = h refl
branches P false x y h k = k refl

bought-IsValid :
    (s : State) (n : ℕ) (o : Option ℕ)
    → IsValid s
    → s.pool.closed ≡ false
    → ((b : ℕ) → o ≡ some b → IsIn b s.device.blocks → ⊥)
    → IsValid (bought s n o).1
unfolding bought
bought-IsValid s n none v open_pool fresh = v
bought-IsValid s n (some b) v open_pool fresh = grow-IsValid s n b v open_pool (fresh b refl)

same_block :
    (s : State) (graphs : ℕ)
    → IsValid s
    → IsValid (record s { pool = record (s.pool) { graphs = graphs } })
same_block s graphs v = record {
  blocks = v.blocks;
  wrapped = v.wrapped;
  counted = v.counted;
  dropped = v.dropped;
}

claimed-IsValid :
    (s : State) (c : Bool)
    → IsValid s
    → IsValid (record s { pool = record (s.pool) { in_flight = c } })
claimed-IsValid s c v = record {
  blocks = v.blocks;
  wrapped = v.wrapped;
  counted = v.counted;
  dropped = v.dropped;
}

reserve-IsValid :
    (alloc : List ℕ → ℕ → Option ℕ) (s : State) (n : ℕ)
    → IsFresh alloc
    → IsValid s
    → IsValid (reserve alloc s n).1
unfolding reserve
reserve-IsValid alloc s n f v =
    branches IsValid s.pool.closed _ _ (λ _. v)
      (λ open_pool.
        branches IsValid s.pool.in_flight _ _ (λ _. v)
          (λ _.
            branches IsValid (slt s.pool.bytes n) _ _
              (λ _. bought-IsValid s n (alloc s.device.blocks n) v open_pool (f s.device.blocks n))
              (λ _. same_block s _ v)))

begin-IsValid : (s : State) → IsValid s → IsValid (begin s).1
unfolding begin
begin-IsValid s v =
    branches IsValid s.pool.closed _ _ (λ _. v)
      (λ _. branches IsValid s.pool.in_flight _ _ (λ _. v) (λ _. claimed-IsValid s true v))

close-IsValid : (s : State) → IsValid s → IsValid (close s).1
unfolding close
close-IsValid s v =
    let (gone, zero_left) = dropped_empty s.pool.block s.device v.blocks v.wrapped v.counted in
    branches IsValid s.pool.closed _ _ (λ _. v)
      (λ _.
        branches IsValid (slt 0 s.pool.graphs) _ _ (λ _. v)
          (λ _. record {
            blocks = gone;
            wrapped = λ e. cc;
            counted = zero_left ∙ sym (ap (length {A = ℕ}) gone);
            dropped = λ _. refl;
          }))

step-IsValid :
    (alloc : List ℕ → ℕ → Option ℕ) (s : State) (o : Op)
    → IsFresh alloc
    → IsValid s
    → IsValid (step alloc s o).1
unfolding step release end_claim
step-IsValid alloc s (reserve_op n) f v = reserve-IsValid alloc s n f v
step-IsValid alloc s release_op f v = same_block s _ v
step-IsValid alloc s begin_op f v = begin-IsValid s v
step-IsValid alloc s end_op f v = claimed-IsValid s false v
step-IsValid alloc s close_op f v = close-IsValid s v

run_from-IsValid :
    (alloc : List ℕ → ℕ → Option ℕ) (ops : List Op) (s : State)
    → IsFresh alloc
    → IsValid s
    → IsValid (run alloc s ops)
unfolding run
run_from-IsValid alloc [] s f v = v
run_from-IsValid alloc (o ∷ ops) s f v =
    run_from-IsValid alloc ops (step alloc s o).1 f (step-IsValid alloc s o f v)

-- After any calls of a new pool on a device without blocks of it: the blocks that are allocated are
-- the one in the pool's wrapper and no other, the device counts them, and a closed pool has none.
pub run-IsValid :
    (alloc : List ℕ → ℕ → Option ℕ) (ops : List Op) (pools : ℕ)
    → IsFresh alloc
    → IsValid (
        run alloc
          (new_transient_pool (record { blocks = []; implicit = 0; transient_pools = pools }))
          ops)
unfolding new_transient_pool
run-IsValid alloc ops pools f =
    run_from-IsValid alloc ops _ f
      (record { blocks = refl; wrapped = λ e. cc; counted = refl; dropped = λ _. refl })
