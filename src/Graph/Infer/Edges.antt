-- ===== src/Graph/Infer/Edges.antt =====
-- infer.go: which edges `addEdge` and the classification of a node add.
use accel.Base.{
  ℕ, zero, suc, ◌<◌, ◌≤◌, ◌≡◌, ◌≢◌, refl, sym, ◌∙◌, inl, inr, ◌⊎◌, arith, List, [], ◌∷◌, ◌++◌, IsIn,
  IsIn-append, IsIn-append_left, IsIn-append_right, contains-IsIn, length, length-set, set,
  get_or-set_self, get_or-set_ne, subst,
}
use native.Mathlib.Decide.{ℕ_discrete, dec_lt}
use accel.Graph.{Hazard}
use accel.Graph.Infer.{Dag, row, add_edge}

-- `j` directly follows `i`.
abbrev pub Edge : Dag → ℕ → ℕ → Type 0
Edge d i j = IsIn j (row d.succ i)

-- `d'` has the edges of `d`, over as many nodes.
pub record Grows (d d' : Dag) : Type 0 where
  pub size : length d'.succ ≡ length d.succ
  pub keeps : (i j : ℕ) → Edge d i j → Edge d' i j

pub Grows-refl : (d : Dag) → Grows d d
Grows-refl d = record { size = refl; keeps = λ i j e. e }

pub Grows-trans : (a b c : Dag) → Grows a b → Grows b c → Grows a c
Grows-trans a b c g h = record {
  size = h.size ∙ g.size;
  keeps = λ i j e. h.keeps i j (g.keeps i j e);
}

row_out : (m : List (List ℕ)) (i : ℕ) → length m ≤ i → row m i ≡ []
row_out [] i h = refl
row_out (r ∷ m) zero h = absurd (omega arith)
row_out (r ∷ m) (suc i) h = row_out m i (omega arith)

-- A set row, read at any index.
row-set :
    (m : List (List ℕ)) (i k : ℕ) (r : List ℕ) (j : ℕ)
    → IsIn j (row (set m i r) k)
    → IsIn j (row m k) ⊎ (i ≡ k) × IsIn j r
row-set m i k r j h = elim (ℕ_discrete i k) [
  | no ne ↦ inl (subst (IsIn j) (get_or-set_ne m i k r [] ne) h)
  | yes e ↦ elim (dec_lt i (length m)) [
    | yes lt ↦ inr (e, subst (IsIn j) (get_or-set_self m i r [] lt) (rw (← e) at h))
    | no ge ↦ absurd (subst (IsIn j) (row_out (set m i r) k (omega (arith, length-set m i r))) h)
  ]
]

row-extend :
    (m : List (List ℕ)) (i t k j : ℕ)
    → IsIn j (row m k)
    → IsIn j (row (set m i (row m i ++ t ∷ [])) k)
row-extend m i t k j h = elim (ℕ_discrete i k) [
  | no ne ↦ subst (IsIn j) (sym (get_or-set_ne m i k (row m i ++ t ∷ []) [] ne)) h
  | yes e ↦ elim (dec_lt i (length m)) [
    | yes lt ↦ rw (← e) (
        subst (IsIn j) (sym (get_or-set_self m i (row m i ++ t ∷ []) [] lt))
          (IsIn-append_left j (row m i) (t ∷ []) (rw (← e) at h)))
    | no ge ↦ absurd (subst (IsIn j) (row_out m k (omega arith)) h)
  ]
]

row-extend_self :
    (m : List (List ℕ)) (i t : ℕ) → i < length m → IsIn t (row (set m i (row m i ++ t ∷ [])) i)
row-extend_self m i t lt =
    subst (IsIn t) (sym (get_or-set_self m i (row m i ++ t ∷ []) [] lt))
      (IsIn-append_right t (row m i) (t ∷ []) (inl refl))

row-extend_from :
    (m : List (List ℕ)) (i t k j : ℕ)
    → IsIn j (row (set m i (row m i ++ t ∷ [])) k)
    → IsIn j (row m k) ⊎ (k ≡ i) × (j ≡ t)
row-extend_from m i t k j h = elim (row-set m i k (row m i ++ t ∷ []) j h) [
  | inl old ↦ inl old
  | inr (e, new) ↦ elim (IsIn-append j (row m i) (t ∷ []) new) [
    | inl old ↦ inl (rw (← e) old)
    | inr (inl last) ↦ inr (sym e, last)
    | inr (inr void) ↦ absurd void
  ]
]

pub add_edge-Grows : (from to : ℕ) (h : Hazard) (d : Dag) → Grows d (add_edge from to h d)
add_edge-Grows from to h d = record {
  size = unfold add_edge in ground (arith, length-set d.succ from (row d.succ from ++ to ∷ []));
  keeps = λ i j e. unfold add_edge in ground (arith, row-extend d.succ from to i j e);
}

pub add_edge-Edge :
    (from to : ℕ) (h : Hazard) (d : Dag)
    → from ≢ to
    → from < length d.succ
    → Edge (add_edge from to h d) from to
unfolding add_edge
add_edge-Edge from to h d ne lt =
    ground (arith, contains-IsIn (row d.succ from) to, row-extend_self d.succ from to lt)

pub add_edge_from :
    (from to : ℕ) (h : Hazard) (d : Dag) (i j : ℕ)
    → Edge (add_edge from to h d) i j
    → Edge d i j ⊎ (i ≡ from) × (j ≡ to) × (from ≢ to)
unfolding add_edge
add_edge_from from to h d i j e = ground (arith, row-extend_from d.succ from to i j)
