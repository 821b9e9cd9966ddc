-- ===== src/Graph/Infer/Nodes.antt =====
-- infer.go: a node against the state that the earlier nodes left.
use accel.Base.{
  ℕ, ◌<◌, ◌≡◌, ◌≢◌, refl, inl, inr, ◌⊎◌, true, none, some, arith, Option, List, [], ◌∷◌, IsIn,
  length, subst,
}
use accel.Graph.RefMap.{find_state}
use accel.Graph.{AccessSpan, key, overlaps}
use accel.Graph.Infer.{ResState, States, state_or_new, Dag, classify_one, classify}
use accel.Graph.Infer.Edges.{Edge, Grows, Grows-refl, Grows-trans}
use accel.Graph.Infer.Classify.{Pending, written, readen, Linked, one-Grows, one-Edge, one_from}

-- The state under an access's key.
abbrev pub state_of : States → AccessSpan → ResState
state_of st a = state_or_new (find_state st (key a.res))

-- One round of the loop over a node's accesses, with its missing key.
abbrev round : Option ResState → AccessSpan → ℕ → Dag → Dag
round o a n d = elim o [ none ↦ d | some s ↦ classify_one s a n d ]

round-Grows : (o : Option ResState) (a : AccessSpan) (n : ℕ) (d : Dag) → Grows d (round o a n d)
round-Grows none a n d = Grows-refl d
round-Grows (some s) a n d = one-Grows s a n d

round-Edge :
    (o : Option ResState) (a : AccessSpan) (n : ℕ) (d : Dag) (w : AccessSpan)
    → Pending (state_or_new o) a w
    → overlaps w a ≡ true
    → w.node ≢ n
    → w.node < length d.succ
    → Edge (round o a n d) w.node n
round-Edge none a n d w (written i) o ne lt = absurd i
round-Edge none a n d w (readen i y) o ne lt = absurd i
round-Edge (some s) a n d w p o ne lt = one-Edge s a n d w p o ne lt

round_from :
    (o : Option ResState) (a : AccessSpan) (n : ℕ) (d : Dag) (i j : ℕ)
    → Edge (round o a n d) i j
    → Edge d i j ⊎ ((w : AccessSpan) × Linked (state_or_new o) a n i j w)
round_from none a n d i j e = inl e
round_from (some s) a n d i j e = one_from s a n i j d e

pub classify-Grows :
    (st : States) (bs : List AccessSpan) (n : ℕ) (d : Dag) → Grows d (classify st bs n d)
unfolding classify
classify-Grows st [] n d = Grows-refl d
classify-Grows st (b ∷ bs) n d =
    let e = round (find_state st (key b.res)) b n d in
    Grows-trans d e (classify st bs n e) (round-Grows (find_state st (key b.res)) b n d)
      (classify-Grows st bs n e)

-- Every pending span that conflicts with an access of the node is linked.
pub classify-Edge :
    (st : States) (bs : List AccessSpan) (n : ℕ) (d : Dag) (b w : AccessSpan)
    → IsIn b bs
    → Pending (state_of st b) b w
    → overlaps w b ≡ true
    → w.node ≢ n
    → w.node < length d.succ
    → Edge (classify st bs n d) w.node n
unfolding classify
classify-Edge st [] n d b w m p o ne lt = absurd m
classify-Edge st (x ∷ bs) n d b w (inl e) p o ne lt =
    let r = find_state st (key x.res) in
    (classify-Grows st bs n (round r x n d)).keeps w.node n (
      round-Edge r x n d w (subst (λ y. Pending (state_of st y) y w) e p)
        (subst (λ y. overlaps w y ≡ true) e o) ne lt)
classify-Edge st (x ∷ bs) n d b w (inr m) p o ne lt =
    let r = find_state st (key x.res) in
    classify-Edge st bs n (round r x n d) b w m p o ne (omega (arith, (round-Grows r x n d).size))

-- Every new edge comes from such a span.
pub classify_from :
    (st : States) (bs : List AccessSpan) (n : ℕ) (d : Dag) (i j : ℕ)
    → Edge (classify st bs n d) i j
    → Edge d i j ⊎ ((b w : AccessSpan) × IsIn b bs × Linked (state_of st b) b n i j w)
unfolding classify
classify_from st [] n d i j e = inl e
classify_from st (x ∷ bs) n d i j e =
    let r = find_state st (key x.res) in
    elim (classify_from st bs n (round r x n d) i j e) [
      | inr (b, w, m, c) ↦ inr (b, w, inr m, c)
      | inl old ↦ elim (round_from r x n d i j old) [
        | inl older ↦ inl older
        | inr (w, c) ↦ inr (x, w, inl refl, c)
      ]
    ]
