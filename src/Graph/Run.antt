-- ===== src/Graph/Run.antt =====
-- submit.go and graph.go: `run`, which executes a graph with a claim on the pool that it may share, and
-- `Close`. Each caller's run is in phases, between which other callers' steps may come, runs of the
-- same graph included, since it holds the graph's lock for a step only. What the driver's executable does is not here.
pub mod Flying
pub mod Alone
pub mod Exclusive
pub mod Released
mod Tests
use accel.Base.{
  ℕ, zero, suc, ◌≡◌, Bool, true, false, Option, none, some, List, [], ◌∷◌, length, get_or,
  if◌then◌else◌, ◌==◌,
}
use accel.Base.Result.{Result, ok, err, ◌>>=◌, ◌>>◌, fail_if}
use accel.Buffer.{Buffer, BufferView, BufferError, check_named}
use accel.Graph.Binding.{
  Graph, SlotBinding, Bound, BindError, graph_closed, device_lost, graph_in_flight, slot_unbound,
  unusable, unbound, bind_all,
}
use accel.TransientPool
use accel.TransientPool.{
  State, Op, begin, end_claim, step, reserve_op, release_op, begin_op, end_op, close_op,
}

-- What `checkBoundAtSubmit` finds of one slot, whose view names the buffer at an address.
unfoldable pub add_error : (ℕ → Buffer) → BufferView → Option ℕ → List BindError → List BindError
add_error heap v none errs = slot_unbound ∷ errs
add_error heap v (some p) errs = elim (check_named heap v (some p)) [
  | ok _ ↦ errs
  | err e ↦ unusable e ∷ errs
]

-- `checkBoundAtSubmit` of `n` slots from `s`: the errors that are joined.
unfoldable pub bound_errors : Graph → (ℕ → Buffer) → ℕ → ℕ → List BindError
bound_errors g heap s zero = []
bound_errors g heap s (suc n) =
    let v = get_or g.bound s unbound in add_error heap v v.buffer (bound_errors g heap (suc s) n)

-- With the errors of the slots, the rest of the check.
unfoldable pub mark_bound : Graph → List BindError → Result (List BindError) Graph
mark_bound g (e ∷ errs) = err (e ∷ errs)
mark_bound g [] = ok (record g { in_flight = true })

-- `run` up to the mark that the graph is in flight.
unfoldable pub start_run : Graph → (ℕ → Buffer) → Bool → Result (List BindError) Graph
start_run g heap lost = do
  fail_if lost (device_lost ∷ [])
  fail_if g.closed (graph_closed ∷ [])
  fail_if g.in_flight (graph_in_flight ∷ [])
  mark_bound g (bound_errors g heap 1 (length g.slots))

-- The deferred end of `run`.
unfoldable pub unmark : Graph → Graph
unmark g = record g { in_flight = false }

-- `Graph.Close`, less what it releases.
unfoldable pub close_graph : Graph → Result BindError Graph
close_graph g = do fail_if g.in_flight graph_in_flight; ok (record g { closed = true })

-- Where a caller's run of the graph is: before its mark or returned, marked, executing, or executed
-- and without its claim.
pub data Phase : Type 0 where
  idle marked executing ended : Phase

-- The graph, the run of each caller, by its number, whether the graph shares the pool, and whether
-- another graph executes with the pool's claim.
pub record System : Type 0 where
  pub graph : Graph
  pub runs : ℕ → Phase
  pub shared : Bool
  pub pool : State
  pub other : Bool

-- One caller's run goes on.
unfoldable pub set_run : (ℕ → Phase) → ℕ → Phase → ℕ → Phase
set_run runs i p = λ j. if j == i then p else runs j

-- The calls of a pool that are no part of a run.
abbrev pub is_quiet : Op → Bool
is_quiet begin_op = false
is_quiet end_op = false
is_quiet o = true

-- The steps of a caller's run of the graph, of callers that bind or close it, and of others that use
-- the pool. Any caller may start a run in any state; a run that `start_run` refuses changes nothing.
pub data RunStep (y : System) : System → Type 0 where
  marks :
      (i : ℕ) (heap : ℕ → Buffer) (lost : Bool) (g : Graph)
      → y.runs i ≡ idle
      → start_run y.graph heap lost ≡ ok g
      → RunStep y (record y { graph = g; runs = set_run (y.runs) i marked })
  claims :
      (i : ℕ) (s : State)
      → y.runs i ≡ marked
      → y.shared ≡ true
      → begin y.pool ≡ (ok tt, s)
      → RunStep y (record y { runs = set_run (y.runs) i executing; pool = s })
  starts :
      (i : ℕ)
      → y.runs i ≡ marked
      → y.shared ≡ false
      → RunStep y (record y { runs = set_run (y.runs) i executing })
  gives_up :
      (i : ℕ) (e : TransientPool.Error) (s : State)
      → y.runs i ≡ marked
      → y.shared ≡ true
      → begin y.pool ≡ (err e, s)
      → RunStep y (record y { graph = unmark (y.graph); runs = set_run (y.runs) i idle; pool = s })
  ends :
      (i : ℕ)
      → y.runs i ≡ executing
      → RunStep y (record y {
        runs = set_run (y.runs) i ended;
        pool = if y.shared then end_claim (y.pool) else y.pool;
      })
  unmarks :
      (i : ℕ)
      → y.runs i ≡ ended
      → RunStep y (record y { graph = unmark (y.graph); runs = set_run (y.runs) i idle })
  binds :
      (heap : ℕ → Buffer) (lost : Bool) (rebind : List Bound → Bool) (bs : List SlotBinding)
      (g : Graph)
      → bind_all y.graph heap lost rebind bs ≡ ok g
      → RunStep y (record y { graph = g })
  closes : (g : Graph) → close_graph y.graph ≡ ok g → RunStep y (record y { graph = g })
  other_claims :
      (s : State) → begin y.pool ≡ (ok tt, s) → RunStep y (record y { pool = s; other = true })
  other_ends : y.other ≡ true → RunStep y (record y { pool = end_claim (y.pool); other = false })
  pools :
      (buy : List ℕ → ℕ → Option ℕ) (o : Op)
      → is_quiet o ≡ true
      → RunStep y (record y { pool = (step buy y.pool o).1 })

-- A graph that was built, at a new pool, after any steps.
pub data Reaches (start : System) : System → Type 0 where
  none_yet : Reaches start start
  then_step : (y z : System) → Reaches start y → RunStep y z → Reaches start z
