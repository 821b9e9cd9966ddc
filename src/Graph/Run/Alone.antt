-- ===== src/Graph/Run/Alone.antt =====
-- submit.go: at most one caller's run of a graph is under way.
use native.Mathlib.Decide.{ℕ_discrete}
use accel.Base.{
  ℕ, false, ◌≡◌, ◌≢◌, refl, sym, ◌∙◌, subst, ◌⊎◌, inl, inr, if_true, if_false, ◌==◌, arith,
}
use accel.Graph.Binding.{Graph}
use accel.Graph.Run.{Phase, idle, marked, executing, ended, set_run}
use accel.Graph.Run.Flying.{IsFlying}

pub set_run_self : (runs : ℕ → Phase) (i : ℕ) (p : Phase) → set_run runs i p i ≡ p
unfolding set_run
set_run_self runs i p = if_true p (runs i) (i == i) (ground arith)

pub set_run_other : (runs : ℕ → Phase) (i j : ℕ) (p : Phase) → j ≢ i → set_run runs i p j ≡ runs j
unfolding set_run
set_run_other runs i j p ne = if_false p (runs j) (j == i) (ground arith)

pub phase_known : (p q : Phase) → q ≢ idle → p ≡ q → p ≢ idle
phase_known p q h e i = h (sym e ∙ i)

-- A run is under way only in a graph that is as it was marked, and only one run is.
pub record IsAlone (g : Graph) (runs : ℕ → Phase) : Type 0 where
  pub fly : (i : ℕ) → runs i ≢ idle → IsFlying g
  pub one : (i j : ℕ) → runs i ≢ idle → runs j ≢ idle → i ≡ j

-- All runs are idle in a graph that is not in flight.
pub all_idle :
    (g : Graph) (runs : ℕ → Phase)
    → IsAlone g runs
    → g.in_flight ≡ false
    → (i : ℕ) → runs i ≢ idle
    → ⊥
all_idle g runs a idle_graph i n = absurd (cc ((a.fly i n).flying, idle_graph))

-- Where another than `i` is under way after a step of `i`, it was before.
moved :
    (runs : ℕ → Phase) (i j : ℕ) (p : Phase) → set_run runs i p j ≢ idle → (j ≡ i) ⊎ (runs j ≢ idle)
moved runs i j p n = elim (ℕ_discrete j i) [
  | yes e ↦ inl e
  | no ne ↦ inr (λ x. n (set_run_other runs i j p ne ∙ x))
]

-- A run that starts, where no other is under way.
pub starts-IsAlone :
    (g : Graph) (runs : ℕ → Phase) (i : ℕ) (p : Phase)
    → ((j : ℕ) → runs j ≢ idle → ⊥)
    → IsFlying g
    → IsAlone g (set_run runs i p)
starts-IsAlone g runs i p free fly =
    let only : (j : ℕ) → set_run runs i p j ≢ idle → j ≡ i =
      λ j n. elim (moved runs i j p n) [ inl e ↦ e | inr was ↦ absurd (free j was) ] in
    record { fly = λ j n. fly; one = λ j k n m. only j n ∙ sym (only k m) }

-- A run under way goes on.
pub goes_on-IsAlone :
    (g : Graph) (runs : ℕ → Phase) (i : ℕ) (p : Phase)
    → runs i ≢ idle
    → IsAlone g runs
    → IsAlone g (set_run runs i p)
goes_on-IsAlone g runs i p way a =
    let only : (j : ℕ) → set_run runs i p j ≢ idle → j ≡ i =
      λ j n. elim (moved runs i j p n) [ inl e ↦ e | inr was ↦ a.one j i was way ] in
    record { fly = λ j n. a.fly i way; one = λ j k n m. only j n ∙ sym (only k m) }

-- The run under way returns, and leaves none.
pub returns-idle :
    (g : Graph) (runs : ℕ → Phase) (i j : ℕ)
    → runs i ≢ idle
    → IsAlone g runs
    → set_run runs i idle j ≡ idle
returns-idle g runs i j way a = elim (ℕ_discrete j i) [
  | yes e ↦ subst (λ x. set_run runs i idle x ≡ idle) (sym e) (set_run_self runs i idle)
  | no ne ↦ set_run_other runs i j idle ne ∙ by_phase (runs j) (λ n. ne (a.one j i n way))
]
  where
    by_phase : (p : Phase) → (p ≢ idle → ⊥) → p ≡ idle
    by_phase idle h = refl
    by_phase marked h = absurd (h (λ x. cc))
    by_phase executing h = absurd (h (λ x. cc))
    by_phase ended h = absurd (h (λ x. cc))

pub all_idle-IsAlone : (g : Graph) (runs : ℕ → Phase) → ((j : ℕ) → runs j ≡ idle) → IsAlone g runs
all_idle-IsAlone g runs h = record {
  fly = λ j n. absurd (n (h j));
  one = λ j k n m. absurd (n (h j));
}

pub none_under_way : (g : Graph) (runs : ℕ → Phase) → ((j : ℕ) → runs j ≢ idle → ⊥) → IsAlone g runs
none_under_way g runs free = record {
  fly = λ j n. absurd (free j n);
  one = λ j k n m. absurd (free j n);
}

-- No run executes after a step of the run under way that does not end in executing.
pub none_executes :
    (g : Graph) (runs : ℕ → Phase) (i j : ℕ) (p : Phase)
    → (p ≢ executing)
    → (runs j ≢ idle → j ≡ i)
    → set_run runs i p j ≢ executing
none_executes g runs i j p pn only x = elim (ℕ_discrete j i) [
  | yes e ↦ pn (sym (set_run_self runs i p) ∙ subst (λ k. set_run runs i p k ≡ executing) e x)
  | no ne ↦
      let was = sym (set_run_other runs i j p ne) ∙ x in
      ne (only (phase_known (runs j) executing (λ y. cc) was))
]
