-- ===== src/Graph/Infer/Links.antt =====
-- infer.go: the classification of a node's accesses links exactly the pending spans they overlap.
use accel.Base.{
  ℕ, ◌<◌, ◌≡◌, ◌≢◌, refl, sym, inl, inr, ◌⊎◌, true, arith, List, [], ◌∷◌, Bool-cases, IsIn, length,
}
use accel.Graph.{Hazard, AccessSpan, overlaps}
use accel.Graph.Infer.{Dag, add_edge, link}
use accel.Graph.Infer.Edges.{
  Edge, Grows, Grows-refl, Grows-trans, add_edge-Grows, add_edge-Edge, add_edge_from,
}

pub link-Grows :
    (ws : List AccessSpan) (a : AccessSpan) (n : ℕ) (h : Hazard) (d : Dag)
    → Grows d (link ws a n h d)
unfolding link
link-Grows [] a n h d = Grows-refl d
link-Grows (w ∷ ws) a n h d = elim (Bool-cases (overlaps w a)) [
  | inl y ↦
      rw (y, link)
        (Grows-trans d (add_edge w.node n h d) (link ws a n h (add_edge w.node n h d))
          (add_edge-Grows w.node n h d) (link-Grows ws a n h (add_edge w.node n h d)))
  | inr k ↦ rw (k, link) (link-Grows ws a n h d)
]

pub link-Edge :
    (ws : List AccessSpan) (a : AccessSpan) (n : ℕ) (h : Hazard) (d : Dag) (w : AccessSpan)
    → IsIn w ws
    → overlaps w a ≡ true
    → w.node ≢ n
    → w.node < length d.succ
    → Edge (link ws a n h d) w.node n
unfolding link
link-Edge [] a n h d w m o ne lt = absurd m
link-Edge (x ∷ ws) a n h d w (inl e) o ne lt =
    let y : overlaps x a ≡ true = rw (← e) o in
    let first : Edge (add_edge x.node n h d) w.node n =
      rw (← e) (add_edge-Edge w.node n h d ne lt) in
    rw (y, link) ((link-Grows ws a n h (add_edge x.node n h d)).keeps w.node n first)
link-Edge (x ∷ ws) a n h d w (inr m) o ne lt = elim (Bool-cases (overlaps x a)) [
  | inl y ↦
      rw (y, link)
        (link-Edge ws a n h (add_edge x.node n h d) w m o ne
          (omega (arith, (add_edge-Grows x.node n h d).size)))
  | inr k ↦ rw (k, link) (link-Edge ws a n h d w m o ne lt)
]

-- A new edge into `n` comes from a span that overlaps.
pub record Cause (ws : List AccessSpan) (a : AccessSpan) (n i j : ℕ) (w : AccessSpan) : Type 0 where
  pub pending : IsIn w ws
  pub meets : overlaps w a ≡ true
  pub source : w.node ≡ i
  pub target : j ≡ n
  pub other : i ≢ n

Cause-later :
    (x : AccessSpan) (ws : List AccessSpan) (a : AccessSpan) (n i j : ℕ)
    → (w : AccessSpan) × Cause ws a n i j w
    → (w : AccessSpan) × Cause (x ∷ ws) a n i j w
Cause-later x ws a n i j (w, c) = (
  w,
  record {
    pending = inr c.pending;
    meets = c.meets;
    source = c.source;
    target = c.target;
    other = c.other;
  },
)

pub link_from :
    (ws : List AccessSpan) (a : AccessSpan) (n : ℕ) (h : Hazard) (d : Dag) (i j : ℕ)
    → Edge (link ws a n h d) i j
    → Edge d i j ⊎ ((w : AccessSpan) × Cause ws a n i j w)
unfolding link
link_from [] a n h d i j e = inl e
link_from (x ∷ ws) a n h d i j e = elim (Bool-cases (overlaps x a)) [
  | inr k ↦ elim (link_from ws a n h d i j (rw (k, link) at e)) [
    | inl old ↦ inl old
    | inr c ↦ inr (Cause-later x ws a n i j c)
  ]
  | inl y ↦ elim (link_from ws a n h (add_edge x.node n h d) i j (rw (y, link) at e)) [
    | inl old ↦ elim (add_edge_from x.node n h d i j old) [
      | inl older ↦ inl older
      | inr (p, q, ne) ↦
          inr (
            x,
            record { pending = inl refl; meets = y; source = sym p; target = q; other = rw p ne },
          )
    ]
    | inr c ↦ inr (Cause-later x ws a n i j c)
  ]
]
