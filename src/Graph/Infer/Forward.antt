-- ===== src/Graph/Infer/Forward.antt =====
-- infer.go: every inferred edge runs forward in record order and has a conflict for its cause, so
-- `assertAcyclic` never fires.
use accel.Base.{
  map, ℕ, zero, suc, ◌+◌, ◌<◌, ◌≡◌, refl, sym, ◌∙◌, inl, inr, true, some, arith, List, [], ◌∷◌,
  IsIn, subst, length, get_elem?, replicate,
}
use native.Mathlib.Nat.{add-zero}
use accel.Graph.Keys.{Ref-discrete}
use accel.Graph.RefMap.{find_state}
use accel.Graph.{RangeAccess, span_of, Ref, RecNode, AccessSpan, writes, key, overlaps, spans_of}
use accel.Graph.Infer.{
  States, Dag, row, state_or_new, commit, commit_all, commit_to, classify, infer_nodes, no_edges,
  infer_edges, assert_acyclic, all_after, forward_from,
}
use accel.Graph.Infer.States.{writers_at, commit_same, commit_other, writer_from}
use accel.Graph.Infer.Edges.{Edge}
use accel.Graph.Infer.Classify.{Pending, written, readen}
use accel.Graph.Infer.Nodes.{state_of, classify_from}
use accel.Graph.Infer.Fresh.{Holds, commit_all-Holds}
use accel.Graph.Infer.Order.{Conflict, IsNumbered}

abbrev pub OnlyWrites : States → Type 0
OnlyWrites st = (k : Ref) (w : AccessSpan) → IsIn w (writers_at st k) → writes w.mode ≡ true

commit-OnlyWrites : (st : States) (a : AccessSpan) → OnlyWrites st → OnlyWrites (commit st a)
commit-OnlyWrites st a h k w m = elim (Ref-discrete (key a.res) k) [
  | no ne ↦ h k w (subst (λ o. IsIn w (state_or_new o).writers) (commit_other st a k ne) m)
  | yes e ↦ stored (subst (λ s. IsIn w s.writers) (commit_same st a) (rw (← e) at m))
]
  where
    stored : IsIn w (commit_to (state_of st a) a).writers → writes w.mode ≡ true
    stored i = elim (writer_from (state_of st a) a w i) [
      | inl o ↦ h (key a.res) w o
      | inr (e, y) ↦ rw e y
    ]

commit_all-OnlyWrites :
    (rest : List AccessSpan) (st : States) → OnlyWrites st → OnlyWrites (commit_all st rest)
unfolding commit_all
commit_all-OnlyWrites [] st h = h
commit_all-OnlyWrites (a ∷ rest) st h =
    commit_all-OnlyWrites rest (commit st a) (commit-OnlyWrites st a h)

-- `x` is an access of the node recorded at place `i`.
pub record IsAccess (nodes : List RecNode) (i : ℕ) (x : AccessSpan) (m : RecNode) : Type 0 where
  pub at : get_elem? nodes i ≡ some m
  pub access : IsIn x (spans_of m)

-- The cause of an edge from `i` to `j`.
pub record Caused (nodes : List RecNode) (i j : ℕ) (m n : RecNode) (x y : AccessSpan) : Type 0 where
  pub forward : i < j
  pub source : IsAccess nodes i x m
  pub target : IsAccess nodes j y n
  pub conflict : Conflict x y

abbrev pub AllCaused : List RecNode → Dag → Type 0
AllCaused nodes d =
    (i j : ℕ) → Edge d i j → (m n : RecNode) × (x y : AccessSpan) × Caused nodes i j m n x y

row-replicate : (n i j : ℕ) → IsIn j (row (replicate n []) i) → ⊥
row-replicate zero i j h = h
row-replicate (suc n) zero j h = h
row-replicate (suc n) (suc i) j h = row-replicate n i j h

-- A pending span is an access of an earlier node.
abbrev Known : List RecNode → ℕ → Ref → AccessSpan → Type 0
Known nodes k _ w = (w.node < k) × ((m : RecNode) × IsAccess nodes w.node w m)

module _ (nodes : List RecNode) (k : ℕ) (n : RecNode) (st : States) (d : Dag)
    (at : get_elem? nodes k ≡ some n) (known : Holds (Known nodes k) st) (only : OnlyWrites st)
    (caused : AllCaused nodes d) where
  Pending-Conflict :
      (b w : AccessSpan)
      → Pending (state_of st b) b w
      → overlaps w b ≡ true
      → Known nodes k (key b.res) w × Conflict w b
  Pending-Conflict b w (written i) o =
      (known (key b.res) w (inl i), record { meets = o; writing = inl (only (key b.res) w i) })
  Pending-Conflict b w (readen i y) o =
      (known (key b.res) w (inr i), record { meets = o; writing = inr y })

  node_caused : AllCaused nodes (classify st (spans_of n) k d)
  node_caused i j e = elim (classify_from st (spans_of n) k d i j e) [
    | inl old ↦ caused i j old
    | inr (b, w, ib, l) ↦
        let ((early, (m, a)), c) = Pending-Conflict b w l.pending l.meets in
        (
          m,
          n,
          w,
          b,
          record {
            forward = rw (← l.source, l.target) early;
            source = subst (λ q. IsAccess nodes q w m) l.source a;
            target = record { at = rw l.target at; access = ib };
            conflict = c;
          },
        )
  ]

spans_at :
    (id : ℕ) (accs : List RangeAccess) (a : AccessSpan)
    → IsIn a (map (span_of id) accs)
    → a.node ≡ id
unfolding span_of
spans_at id [] a m = absurd m
spans_at id (c ∷ rest) a (inl e) = rw e
spans_at id (c ∷ rest) a (inr m) = spans_at id rest a m

infer_nodes-AllCaused :
    (nodes ns : List RecNode) (k : ℕ) (st : States) (d : Dag)
    → IsNumbered k ns
    → ((i : ℕ) (m : RecNode) → get_elem? ns i ≡ some m → get_elem? nodes (k + i) ≡ some m)
    → Holds (Known nodes k) st
    → OnlyWrites st
    → AllCaused nodes d
    → AllCaused nodes (infer_nodes st d ns)
unfolding infer_nodes
infer_nodes-AllCaused nodes [] k st d num at known only caused = caused
infer_nodes-AllCaused nodes (n ∷ ns) k st d num at known only caused =
    let here : get_elem? nodes k ≡ some n = rw add-zero at (at 0 n refl) in
    let spans = spans_of n in
    infer_nodes-AllCaused nodes ns (suc k) (commit_all st spans) (classify st spans n.id d) num.1
      (λ i m e. let s : suc k + i ≡ k + suc i = omega arith in rw s (at (suc i) m e))
      (commit_all-Holds (Known nodes (suc k)) spans st
        (λ a i.
          let own : a.node ≡ k = unfold spans_of in spans_at n.id n.accesses a i ∙ num.0 in
          (omega arith, (n, record { at = rw own here; access = i })))
        (λ j w i. let (lt, q) = known j w i in (omega arith, q)))
      (commit_all-OnlyWrites spans st only)
      (subst (λ i. AllCaused nodes (classify st spans i d)) (sym num.0)
        (node_caused nodes k n st d here known only caused))

-- For nodes numbered in record order, every inferred edge from `i` to `j` runs forward, and some
-- access of node `i` overlaps one of node `j`, with one of the two a write.
pub infer_edges_caused :
    (nodes : List RecNode) → IsNumbered 0 nodes → AllCaused nodes (infer_edges nodes)
unfolding infer_edges no_edges
infer_edges_caused nodes num =
    infer_nodes-AllCaused nodes nodes 0 [] (no_edges (length nodes)) num
      (λ i m e. let z : 0 + i ≡ i = omega arith in rw z e)
      (λ k w i. unfold find_state in elim i [ inl m ↦ absurd m | inr m ↦ absurd m ])
      (λ k w i. unfold find_state in absurd i)
      (λ i j e. absurd (row-replicate (length nodes) i j e))

all_after_lem : (from : ℕ) (r : List ℕ) → ((e : ℕ) → IsIn e r → from < e) → all_after from r ≡ true
unfolding all_after
all_after_lem from [] h = refl
all_after_lem from (e ∷ es) h =
    ground (arith, h e (inl refl), all_after_lem from es (λ f m. h f (inr m)))

forward_from_lem :
    (k : ℕ) (rows : List (List ℕ))
    → ((i j : ℕ) → IsIn j (row rows i) → k + i < j)
    → forward_from k rows ≡ true
unfolding forward_from
forward_from_lem k [] h = refl
forward_from_lem k (r ∷ rows) h =
    let first = all_after_lem k r (λ e m. omega (arith, h 0 e m)) in
    let rest = forward_from_lem (suc k) rows (λ i j m. omega (arith, h (suc i) j m)) in
    rw (first, rest)

-- The internal check of a build never fails on nodes numbered in record order.
pub assert_acyclic_lem :
    (nodes : List RecNode) → IsNumbered 0 nodes → assert_acyclic (infer_edges nodes) ≡ true
unfolding assert_acyclic
assert_acyclic_lem nodes num =
    forward_from_lem 0 (infer_edges nodes).succ (λ i j e.
      let (_, _, _, _, c) = infer_edges_caused nodes num i j e in omega (arith, c.forward))
