-- ===== src/Graph/Run/Released.antt =====
-- submit.go: a run takes the marks that it made away again.
use accel.Base.{
  ℕ, ◌≡◌, ◌≢◌, refl, sym, ◌∙◌, ap, subst, ◌⊎◌, inl, inr, Bool, true, false, Bool-cases, if_true,
  if_false, if◌then◌else◌,
}
use accel.TransientPool.{State, end_claim}
use accel.Graph.Run.{
  Phase, idle, marked, executing, ended, set_run, unmark, System, RunStep, marks, claims, starts,
  gives_up, ends, unmarks, binds, closes, other_claims, other_ends, pools, Reaches, none_yet,
  then_step,
}
use accel.Graph.Run.Flying.{bind_all_leaves, close_graph_leaves}
use accel.Graph.Run.Alone.{set_run_self, set_run_other}
use accel.Graph.Run.Exclusive.{begin_refused, quiet_claim}

-- A graph is in flight for a run that is under way.
abbrev HasRun : (ℕ → Phase) → Type 0
HasRun runs = (i : ℕ) × (runs i ≢ idle)

-- The pool is claimed for another graph, or for a run that executes.
abbrev HasHolder : Bool → (ℕ → Phase) → Bool → Type 0
HasHolder other runs shared = (other ≡ true) ⊎ ((i : ℕ) × (runs i ≡ executing) × (shared ≡ true))

record IsHeld (y : System) : Type 0 where
  run : y.graph.in_flight ≡ true → HasRun y.runs
  holder : y.pool.pool.in_flight ≡ true → HasHolder y.other y.runs y.shared

under_way : (runs : ℕ → Phase) (i : ℕ) (p : Phase) → p ≢ idle → HasRun (set_run runs i p)
under_way runs i p n = (i, λ e. n (sym (set_run_self runs i p) ∙ e))

-- The step of a run that does not execute takes no claim away.
HasHolder-set_run :
    (other : Bool) (runs : ℕ → Phase) (shared : Bool) (i : ℕ) (p : Phase)
    → runs i ≢ executing
    → HasHolder other runs shared
    → HasHolder other (set_run runs i p) shared
HasHolder-set_run other runs shared i p n (inl o) = inl o
HasHolder-set_run other runs shared i p n (inr (j, x, s)) =
    inr (j, set_run_other runs i j p (λ e. n (subst (λ k. runs k ≡ executing) e x)) ∙ x, s)

-- After the end of a run that executes, a claim is another graph's.
ends-HasHolder :
    (y : System) (i : ℕ)
    → IsHeld y
    → y.runs i ≡ executing
    → (if y.shared then end_claim y.pool else y.pool).pool.in_flight ≡ true
    → HasHolder y.other (set_run y.runs i ended) y.shared
unfolding end_claim
ends-HasHolder y i v r h = elim (Bool-cases y.shared) [
  | inl sh ↦
      absurd (
        cc
          (ap (λ (s : State). s.pool.in_flight) (if_true (end_claim y.pool) y.pool y.shared sh), h))
  | inr no_pool ↦
      let same =
        ap (λ (s : State). s.pool.in_flight)
          (if_false (end_claim y.pool) y.pool y.shared no_pool) in
      elim (v.holder (sym same ∙ h)) [ inl o ↦ inl o | inr (j, x, sh) ↦ absurd (cc (no_pool, sh)) ]
]

RunStep-IsHeld : (y z : System) → IsHeld y → RunStep y z → IsHeld z
unfolding unmark end_claim
RunStep-IsHeld y z v (marks i heap lost g r e) = record {
  run = λ _. under_way y.runs i marked (λ x. cc);
  holder = λ h. HasHolder-set_run y.other y.runs y.shared i marked (λ x. cc) (v.holder h);
}
RunStep-IsHeld y z v (claims i s m sh e) = record {
  run = λ _. under_way y.runs i executing (λ x. cc);
  holder = λ h. inr (i, set_run_self y.runs i executing, sh);
}
RunStep-IsHeld y z v (starts i m sh) = record {
  run = λ _. under_way y.runs i executing (λ x. cc);
  holder = λ h. HasHolder-set_run y.other y.runs y.shared i executing (λ x. cc) (v.holder h);
}
RunStep-IsHeld y z v (gives_up i x s m sh e) = record {
  run = λ h. cc;
  holder = λ h.
      HasHolder-set_run y.other y.runs y.shared i idle (λ q. cc)
        (v.holder (sym (begin_refused y.pool s x e) ∙ h));
}
RunStep-IsHeld y z v (ends i r) = record {
  run = λ _. under_way y.runs i ended (λ x. cc);
  holder = ends-HasHolder y i v r;
}
RunStep-IsHeld y z v (unmarks i r) = record {
  run = λ h. cc;
  holder = λ h. HasHolder-set_run y.other y.runs y.shared i idle (λ q. cc) (v.holder h);
}
RunStep-IsHeld y z v (binds heap lost rebind bs g e) = record {
  run = λ h. absurd (cc (bind_all_leaves y.graph heap lost rebind bs e, h));
  holder = v.holder;
}
RunStep-IsHeld y z v (closes g e) = record {
  run = λ h. absurd (cc (close_graph_leaves y.graph e, h));
  holder = v.holder;
}
RunStep-IsHeld y z v (other_claims s e) = record { run = v.run; holder = λ h. inl refl }
RunStep-IsHeld y z v (other_ends o) = record { run = v.run; holder = λ h. cc }
RunStep-IsHeld y z v (pools buy o q) = record {
  run = v.run;
  holder = λ h. v.holder (sym (quiet_claim buy y.pool o q) ∙ h);
}

Reaches-IsHeld : (start y : System) → IsHeld start → Reaches start y → IsHeld y
Reaches-IsHeld start y v none_yet = v
Reaches-IsHeld start _ v (then_step y z r s) = RunStep-IsHeld y z (Reaches-IsHeld start y v r) s

-- From a graph that is not in flight, at a pool without a claim, after any steps of any callers' runs
-- of it, of callers that bind or close it, and of others that use the pool: once all runs have
-- returned, also those that the pool refused, the graph is not marked in flight, and the pool has no
-- claim, or another graph executes with it.
pub Reaches-IsReleased :
    (start y : System)
    → start.graph.in_flight ≡ false
    → start.pool.pool.in_flight ≡ false
    → Reaches start y
    → ((i : ℕ) → y.runs i ≡ idle)
    → (y.graph.in_flight ≡ false) × ((y.pool.pool.in_flight ≡ false) ⊎ (y.other ≡ true))
Reaches-IsReleased start y landed free r rest =
    let v =
      Reaches-IsHeld start y
        (record { run = λ h. absurd (cc (landed, h)); holder = λ h. absurd (cc (free, h)) }) r in
    (
      elim (Bool-cases y.graph.in_flight) [
        | inl h ↦ let (i, n) = v.run h in absurd (n (rest i))
        | inr no_flight ↦ no_flight
      ],
      elim (Bool-cases y.pool.pool.in_flight) [
        | inl h ↦ elim (v.holder h) [
          | inl taken ↦ inr taken
          | inr (i, x, sh) ↦ absurd (cc (rest i, x))
        ]
        | inr unclaimed ↦ inl unclaimed
      ],
    )
