-- ===== src/Graph/Run/Exclusive.antt =====
-- submit.go: what holds while a graph executes.
use accel.Base.{
  ℕ, ◌≡◌, ◌≢◌, refl, sym, ap, ◌∙◌, Bool, true, false, Option, List, if_true, if_false, Bool-cases,
  inl, inr,
}
use accel.Base.Result.{ok, err}
use accel.Buffer.{Buffer}
use accel.Graph.Binding.{Graph, SlotBinding, Bound, bind_all}
use accel.TransientPool.{
  Error, State, Op, begin, end_claim, release, step, succeeded, reserve_op, release_op, begin_op,
  end_op, close_op,
}
use accel.TransientPool.Claims.{reserve-Leaves, begin-Takes, close_claim}
use accel.Graph.Run.{
  idle, marked, executing, ended, set_run, unmark, System, is_quiet, RunStep, marks, claims, starts,
  gives_up, ends, unmarks, binds, closes, other_claims, other_ends, pools, Reaches, none_yet,
  then_step,
}
use accel.Graph.Run.Alone.{
  phase_known, IsAlone, all_idle, starts-IsAlone, goes_on-IsAlone, returns-idle, all_idle-IsAlone,
  none_under_way, none_executes,
}
use accel.Graph.Run.Flying.{
  IsFlying, start_run-IsFlying, start_run_idle, bind_all_idle, close_graph_idle,
}

-- A claim that is given was free, and is taken.
begin_claims :
    (s s' : State) → begin s ≡ (ok tt, s') → (s.pool.in_flight ≡ false) × (s'.pool.in_flight ≡ true)
begin_claims s s' e =
    let t = begin-Takes s in
    let given : succeeded (begin s).0 ≡ true = ap (λ q. succeeded q.0) e in
    (
      t.free given,
      ap (λ q. q.1.pool.in_flight) (sym e)
          ∙ t.claim
          ∙ if_true true s.pool.in_flight (succeeded (begin s).0) given,
    )

pub begin_refused :
    (s s' : State) (x : Error) → begin s ≡ (err x, s') → s'.pool.in_flight ≡ s.pool.in_flight
begin_refused s s' x e =
    let t = begin-Takes s in
    let not_given : succeeded (begin s).0 ≡ false = ap (λ q. succeeded q.0) e in
    ap (λ q. q.1.pool.in_flight) (sym e)
    ∙ t.claim
    ∙ if_false true s.pool.in_flight (succeeded (begin s).0) not_given

pub quiet_claim :
    (buy : List ℕ → ℕ → Option ℕ) (s : State) (o : Op)
    → is_quiet o ≡ true
    → (step buy s o).1.pool.in_flight ≡ s.pool.in_flight
unfolding step release
quiet_claim buy s (reserve_op n) e = (reserve-Leaves buy s n).claim
quiet_claim buy s release_op e = refl
quiet_claim buy s begin_op e = cc
quiet_claim buy s end_op e = cc
quiet_claim buy s close_op e = close_claim s

-- The claim on the pool is with the run that executes, or with another graph's.
record IsSafe (y : System) : Type 0 where
  alone : IsAlone y.graph y.runs
  mine :
      (i : ℕ)
      → y.runs i ≡ executing
      → y.shared ≡ true
      → (y.pool.pool.in_flight ≡ true) × (y.other ≡ false)
  theirs : y.other ≡ true → y.pool.pool.in_flight ≡ true

RunStep-IsSafe : (y z : System) → IsSafe y → RunStep y z → IsSafe z
unfolding end_claim
RunStep-IsSafe y z v (marks i heap lost g r e) =
    let free = all_idle y.graph y.runs v.alone (start_run_idle y.graph heap lost e) in
    record {
      alone = starts-IsAlone g y.runs i marked free (start_run-IsFlying y.graph heap lost e);
      mine =
          λ j x s. absurd (none_executes g y.runs i j marked (λ q. cc) (λ n. absurd (free j n)) x);
      theirs = v.theirs;
    }
RunStep-IsSafe y z v (claims i s m sh e) =
    let (free, taken) = begin_claims y.pool s e in
    let alone : y.other ≡ false = elim (Bool-cases y.other) [
      | inl o ↦ absurd (cc (v.theirs o, free))
      | inr n ↦ n
    ] in
    let way = phase_known (y.runs i) marked (λ x. cc) m in
    record {
      alone = goes_on-IsAlone y.graph y.runs i executing way v.alone;
      mine = λ j x sh'. (taken, alone);
      theirs = λ o. taken;
    }
RunStep-IsSafe y z v (starts i m sh) =
    let way = phase_known (y.runs i) marked (λ x. cc) m in
    record {
      alone = goes_on-IsAlone y.graph y.runs i executing way v.alone;
      mine = λ j x s. absurd (cc (sh, s));
      theirs = v.theirs;
    }
RunStep-IsSafe y z v (gives_up i x s m sh e) =
    let way = phase_known (y.runs i) marked (λ x. cc) m in
    record {
      alone =
          all_idle-IsAlone (unmark y.graph) (set_run y.runs i idle)
            (λ j. returns-idle y.graph y.runs i j way v.alone);
      mine = λ j r sh'.
          absurd (none_executes y.graph y.runs i j idle (λ q. cc) (λ n. v.alone.one j i n way) r);
      theirs = λ o. begin_refused y.pool s x e ∙ v.theirs o;
    }
RunStep-IsSafe y z v (ends i r) =
    let way = phase_known (y.runs i) executing (λ x. cc) r in
    record {
      alone = goes_on-IsAlone y.graph y.runs i ended way v.alone;
      mine = λ j x s.
          absurd (none_executes y.graph y.runs i j ended (λ q. cc) (λ n. v.alone.one j i n way) x);
      theirs = λ o. elim (Bool-cases y.shared) [
        | inl sh ↦ absurd (cc ((v.mine i r sh).1, o))
        | inr unshared ↦
            ap (λ (s : State). s.pool.in_flight)
              (if_false (end_claim y.pool) y.pool y.shared unshared)
            ∙ v.theirs o
      ];
    }
RunStep-IsSafe y z v (unmarks i r) =
    let way = phase_known (y.runs i) ended (λ x. cc) r in
    record {
      alone =
          all_idle-IsAlone (unmark y.graph) (set_run y.runs i idle)
            (λ j. returns-idle y.graph y.runs i j way v.alone);
      mine = λ j x s.
          absurd (none_executes y.graph y.runs i j idle (λ q. cc) (λ n. v.alone.one j i n way) x);
      theirs = v.theirs;
    }
RunStep-IsSafe y z v (binds heap lost rebind bs g e) =
    let free = all_idle y.graph y.runs v.alone (bind_all_idle y.graph heap lost rebind bs e) in
    record { alone = none_under_way g y.runs free; mine = v.mine; theirs = v.theirs }
RunStep-IsSafe y z v (closes g e) =
    let free = all_idle y.graph y.runs v.alone (close_graph_idle y.graph e) in
    record { alone = none_under_way g y.runs free; mine = v.mine; theirs = v.theirs }
RunStep-IsSafe y z v (other_claims s e) =
    let (free, taken) = begin_claims y.pool s e in
    record {
      alone = v.alone;
      mine = λ j r sh. absurd (cc ((v.mine j r sh).0, free));
      theirs = λ o. taken;
    }
RunStep-IsSafe y z v (other_ends o) = record {
  alone = v.alone;
  mine = λ j r sh. absurd (cc ((v.mine j r sh).1, o));
  theirs = λ n. cc;
}
RunStep-IsSafe y z v (pools buy o q) =
    let same = quiet_claim buy y.pool o q in
    record {
      alone = v.alone;
      mine = λ j r sh. (same ∙ (v.mine j r sh).0, (v.mine j r sh).1);
      theirs = λ o. same ∙ v.theirs o;
    }

Reaches-IsSafe : (start y : System) → IsSafe start → Reaches start y → IsSafe y
Reaches-IsSafe start y v none_yet = v
Reaches-IsSafe start _ v (then_step y z r s) = RunStep-IsSafe y z (Reaches-IsSafe start y v r) s

-- What a caller can rely on while its run of the graph executes.
pub record IsExclusive (y : System) (i : ℕ) : Type 0 where
  pub graph : IsFlying y.graph
  pub only : (j : ℕ) → y.runs j ≢ idle → j ≡ i
  pub claimed : y.shared ≡ true → y.pool.pool.in_flight ≡ true
  pub alone : y.shared ≡ true → y.other ≡ false
  pub unbound_by_none :
      (heap : ℕ → Buffer) (lost : Bool) (rebind : List Bound → Bool) (bs : List SlotBinding)
      (g : Graph)
      → bind_all y.graph heap lost rebind bs ≢ ok g

-- From a graph that no caller is running, at a pool that no other graph has claimed, after any steps
-- of any callers' runs of it, of callers that bind or close it, and of others that use the pool: while
-- a caller's run executes, no other run of the graph is under way, the graph is marked in flight and
-- open, every slot of it is bound, no batch is bound to it, and if it shares the pool, the claim on the
-- pool is its own and no other graph executes there.
pub Reaches-IsExclusive :
    (start y : System) (i : ℕ)
    → ((j : ℕ) → start.runs j ≡ idle)
    → start.other ≡ false
    → Reaches start y
    → y.runs i ≡ executing
    → IsExclusive y i
Reaches-IsExclusive start y i rest free r runs =
    let safe : IsSafe start = record {
      alone = all_idle-IsAlone start.graph start.runs rest;
      mine = λ j x s. absurd (phase_known (start.runs j) executing (λ q. cc) x (rest j));
      theirs = λ o. absurd (cc (o, free));
    } in
    let v = Reaches-IsSafe start y safe r in
    let way = phase_known (y.runs i) executing (λ x. cc) runs in
    let fly = v.alone.fly i way in
    record {
      graph = fly;
      only = λ j n. v.alone.one j i n way;
      claimed = λ s. (v.mine i runs s).0;
      alone = λ s. (v.mine i runs s).1;
      unbound_by_none =
          λ heap lost rebind bs g e. cc (fly.flying, bind_all_idle y.graph heap lost rebind bs e);
    }
