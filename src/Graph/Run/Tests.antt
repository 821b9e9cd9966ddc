-- ===== src/Graph/Run/Tests.antt =====
-- submit.go: a graph with a bound slot that two callers run, in a shared pool.
use accel.Base.{Bool, ◌==◌, if◌then◌else◌, ℕ, ◌≡◌, ◌⊎◌, refl, true, false, none, some, [], ◌∷◌}
use accel.Base.Result.{ok, err}
use accel.Buffer.{
  Buffer, BufferView, f32, dtype_size, check_named, check_usable, check_range, out_of_range,
}
use accel.Graph.Binding.{Graph, storage_buffer, graph_in_flight, slot_unbound, unbound}
use accel.Graph.Run.{
  start_run, mark_bound, bound_errors, add_error, close_graph, unmark, System, marks, claims, ends,
  unmarks, Reaches, none_yet, then_step, Phase, idle, marked, executing, ended, set_run,
}
use accel.Graph.Run.Exclusive.{IsExclusive, Reaches-IsExclusive}
use accel.Graph.Run.Released.{Reaches-IsReleased}
use accel.TransientPool.{State, begin, end_claim}

abbrev heap : ℕ → Buffer
heap p = record {
  device = 1;
  block = 9;
  at = 128;
  usage = 1;
  bytes = 64;
  state = record { refs = 1; closed = false };
  transient = false;
}

abbrev view : BufferView
view = record { buffer = some 7; dtype = f32; offset = 0; count = 4 }

abbrev graph : Graph
graph = record {
  device = 1;
  slots = record { kind = storage_buffer; dtype = f32; min_count = 4 } ∷ [];
  closed = false;
  in_flight = false;
  bound = unbound ∷ view ∷ [];
  concrete = [];
  slot_writer = false ∷ false ∷ [];
}

abbrev flying : Graph
flying = record graph { in_flight = true }

abbrev pool : State
pool = record {
  device = record { blocks = []; implicit = 0; transient_pools = 1 };
  pool = record { block = none; bytes = 0; graphs = 1; in_flight = false; closed = false };
}

abbrev claimed : State
claimed = record {
  device = record { blocks = []; implicit = 0; transient_pools = 1 };
  pool = record { block = none; bytes = 0; graphs = 1; in_flight = true; closed = false };
}

start_run-graph : start_run graph heap false ≡ ok flying
unfolding start_run mark_bound bound_errors add_error check_named check_usable check_range
    out_of_range dtype_size
start_run-graph = refl

-- A second run, while the first is under way.
start_run-flying : start_run flying heap false ≡ err (graph_in_flight ∷ [])
unfolding start_run
start_run-flying = refl

start_run-unbound :
    start_run (record graph { bound = unbound ∷ unbound ∷ [] }) heap false ≡ err (slot_unbound ∷ [])
unfolding start_run mark_bound bound_errors add_error
start_run-unbound = refl

close_refused : close_graph flying ≡ err graph_in_flight
unfolding close_graph
close_refused = refl

abbrev none_runs : ℕ → Phase
none_runs i = idle

abbrev start : System
start = record { graph = graph; runs = none_runs; shared = true; pool = pool; other = false }

abbrev first_marked : System
first_marked = record start { graph = flying; runs = set_run none_runs 3 marked }

abbrev first_running : System
first_running = record first_marked {
  runs = set_run (first_marked.runs) 3 executing;
  pool = claimed;
}

abbrev first_ended : System
first_ended = record first_running { runs = set_run (first_running.runs) 3 ended; pool = pool }

abbrev between : System
between = record first_ended { graph = graph; runs = set_run (first_ended.runs) 3 idle }

abbrev second_marked : System
second_marked = record between { graph = flying; runs = set_run (between.runs) 5 marked }

-- Caller 5 runs the graph after caller 3.
abbrev running : System
running = record second_marked { runs = set_run (second_marked.runs) 5 executing; pool = claimed }

between-Reaches : Reaches start between
unfolding begin end_claim unmark set_run
between-Reaches =
    then_step first_ended between
      (then_step first_running first_ended
        (then_step first_marked first_running
          (then_step start first_marked none_yet (marks 3 heap false flying refl start_run-graph))
          (claims 3 claimed refl refl refl))
        (ends 3 refl))
      (unmarks 3 refl)

running-Reaches : Reaches start running
unfolding begin end_claim unmark set_run
running-Reaches =
    then_step second_marked running
      (then_step between second_marked between-Reaches
        (marks 5 heap false flying refl start_run-graph))
      (claims 5 claimed refl refl refl)

all_returned : (i : ℕ) → between.runs i ≡ idle
unfolding set_run
all_returned i = if_same (i == 3)
  where
    if_same :
        (b : Bool)
        → (if b
            then idle
            else (if b then ended else (if b then executing else (if b then marked else idle))))
          ≡ idle
    if_same true = refl
    if_same false = refl

Reaches-IsReleased_example :
    (graph.in_flight ≡ false) × ((pool.pool.in_flight ≡ false) ⊎ (false ≡ true))
Reaches-IsReleased_example = Reaches-IsReleased start between refl refl between-Reaches all_returned

second_executes : running.runs 5 ≡ executing
unfolding set_run
second_executes = refl

Reaches-IsExclusive_example : IsExclusive running 5
Reaches-IsExclusive_example =
    Reaches-IsExclusive start running 5 (λ j. refl) refl running-Reaches second_executes
