-- ===== src/Graph/Run/Flying.antt =====
-- submit.go: a graph that is marked in flight is bound, and is neither bound again nor closed.
use native.Mathlib.Decide.{ℕ_discrete}
use accel.Base.{
  ℕ, zero, suc, ◌+◌, ◌<◌, ◌≤◌, ◌≡◌, refl, subst, Bool, true, false, not, Option, none, some, List,
  [], ◌∷◌, length, get_or, arith,
}
use accel.Base.Result.{Result, ok, err, ok-injective, then_passed}
use accel.Buffer.{Buffer, BufferView, BufferError, check_named}
use accel.Graph.Binding.{
  Graph, SlotBinding, Bound, BindError, unusable, unbound, check_bindings, check_overlaps,
  apply_batch, bind_all,
}
use accel.Graph.Run.{add_error, bound_errors, mark_bound, start_run, close_graph}

-- Every slot names a buffer.
abbrev pub IsFull : Graph → Type 0
IsFull g =
    (s : ℕ) → 1 ≤ s → s ≤ length g.slots → (p : ℕ) × ((get_or g.bound s unbound).buffer ≡ some p)

add_error_none :
    (heap : ℕ → Buffer) (v : BufferView) (o : Option ℕ) (errs : List BindError)
    → add_error heap v o errs ≡ []
    → ((p : ℕ) × (o ≡ some p)) × (errs ≡ [])
unfolding add_error
add_error_none heap v none errs e = cc
add_error_none heap v (some p) errs e = ((p, refl), by_check (check_named heap v (some p)) e)
  where
    by_check :
        (r : Result BufferError (Unit {0}))
        → elim r [ ok _ ↦ errs | err x ↦ unusable x ∷ errs ] ≡ []
        → errs ≡ []
    by_check (ok u) h = h
    by_check (err x) h = cc

bound_errors_none :
    (g : Graph) (heap : ℕ → Buffer) (from n s : ℕ)
    → bound_errors g heap from n ≡ []
    → from ≤ s
    → s < from + n
    → (p : ℕ) × ((get_or g.bound s unbound).buffer ≡ some p)
unfolding bound_errors
bound_errors_none g heap from zero s e lo hi = absurd (omega (arith, lo, hi))
bound_errors_none g heap from (suc n) s e lo hi =
    let v = get_or g.bound from unbound in
    let (here, rest) = add_error_none heap v v.buffer (bound_errors g heap (suc from) n) e in
    elim (ℕ_discrete from s) [
      | yes same ↦ subst (λ k. (p : ℕ) × ((get_or g.bound k unbound).buffer ≡ some p)) same here
      | no other ↦
          bound_errors_none g heap (suc from) n s rest (omega (arith, lo, other))
            (omega (arith, hi))
    ]

-- A graph that is marked in flight.
pub record IsFlying (g : Graph) : Type 0 where
  pub flying : g.in_flight ≡ true
  pub opened : g.closed ≡ false
  pub full : IsFull g

mark_bound-IsFlying :
    (g : Graph) (heap : ℕ → Buffer) (errs : List BindError) {g' : Graph}
    → bound_errors g heap 1 (length g.slots) ≡ errs
    → g.closed ≡ false
    → mark_bound g errs ≡ ok g'
    → IsFlying g'
unfolding mark_bound
mark_bound-IsFlying g heap (x ∷ errs) no_errors opened e = cc
mark_bound-IsFlying g heap [] no_errors opened e = subst IsFlying (ok-injective e) (record {
  flying = refl;
  opened = opened;
  full =
      λ s one le. bound_errors_none g heap 1 (length g.slots) s no_errors one (omega (arith, le));
})

pub start_run-IsFlying :
    (g : Graph) (heap : ℕ → Buffer) (lost : Bool) {g' : Graph}
    → start_run g heap lost ≡ ok g'
    → IsFlying g'
unfolding start_run
start_run-IsFlying g heap lost e =
    let (c1, e1) = then_passed lost _ _ e in
    let (c2, e2) = then_passed g.closed _ _ e1 in
    let (c3, e3) = then_passed g.in_flight _ _ e2 in
    mark_bound-IsFlying g heap (bound_errors g heap 1 (length g.slots)) refl c2 e3

-- A graph that is marked was not in flight.
pub start_run_idle :
    (g : Graph) (heap : ℕ → Buffer) (lost : Bool) {g' : Graph}
    → start_run g heap lost ≡ ok g'
    → g.in_flight ≡ false
unfolding start_run
start_run_idle g heap lost e =
    let (c1, e1) = then_passed lost _ _ e in
    let (c2, e2) = then_passed g.closed _ _ e1 in (then_passed g.in_flight _ _ e2).0

-- A graph in flight is neither bound nor closed.
apply_batch_idle :
    (g : Graph) (heap : ℕ → Buffer) (lost : Bool) (rebind : List Bound → Bool)
    (bs : List SlotBinding) (r : List Bound × List BindError) {g' : Graph}
    → apply_batch g heap lost rebind bs r ≡ ok g'
    → g.in_flight ≡ false
unfolding apply_batch
apply_batch_idle g heap lost rebind bs (staged, x ∷ errs) e = cc
apply_batch_idle g heap lost rebind bs (staged, []) e = (then_passed g.in_flight _ _ e).0

pub bind_all_idle :
    (g : Graph) (heap : ℕ → Buffer) (lost : Bool) (rebind : List Bound → Bool)
    (bs : List SlotBinding) {g' : Graph}
    → bind_all g heap lost rebind bs ≡ ok g'
    → g.in_flight ≡ false
unfolding bind_all
bind_all_idle g heap lost rebind bs e =
    let (c1, e1) = then_passed g.closed _ _ e in
    let (c2, e2) = then_passed lost _ _ e1 in
    apply_batch_idle g heap lost rebind bs (check_bindings g heap bs) e2

pub close_graph_idle : (g : Graph) {g' : Graph} → close_graph g ≡ ok g' → g.in_flight ≡ false
unfolding close_graph
close_graph_idle g e = (then_passed g.in_flight _ _ e).0

-- Neither leaves it in flight.
apply_batch_leaves :
    (g : Graph) (heap : ℕ → Buffer) (lost : Bool) (rebind : List Bound → Bool)
    (bs : List SlotBinding) (r : List Bound × List BindError) {g' : Graph}
    → apply_batch g heap lost rebind bs r ≡ ok g'
    → g'.in_flight ≡ false
unfolding apply_batch
apply_batch_leaves g heap lost rebind bs (staged, x ∷ errs) e = cc
apply_batch_leaves g heap lost rebind bs (staged, []) e =
    let (idle_graph, e1) = then_passed g.in_flight _ _ e in
    let (c2, e2) = then_passed (check_overlaps g heap bs) _ _ e1 in
    let (c3, e3) = then_passed (not (rebind staged)) _ _ e2 in
    subst (λ (x : Graph). x.in_flight ≡ false) (ok-injective e3) idle_graph

pub bind_all_leaves :
    (g : Graph) (heap : ℕ → Buffer) (lost : Bool) (rebind : List Bound → Bool)
    (bs : List SlotBinding) {g' : Graph}
    → bind_all g heap lost rebind bs ≡ ok g'
    → g'.in_flight ≡ false
unfolding bind_all
bind_all_leaves g heap lost rebind bs e =
    let (c1, e1) = then_passed g.closed _ _ e in
    let (c2, e2) = then_passed lost _ _ e1 in
    apply_batch_leaves g heap lost rebind bs (check_bindings g heap bs) e2

pub close_graph_leaves : (g : Graph) {g' : Graph} → close_graph g ≡ ok g' → g'.in_flight ≡ false
unfolding close_graph
close_graph_leaves g e =
    let (idle_graph, made) = then_passed g.in_flight _ _ e in
    subst (λ (x : Graph). x.in_flight ≡ false) (ok-injective made) idle_graph
