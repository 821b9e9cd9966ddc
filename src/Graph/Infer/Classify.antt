-- ===== src/Graph/Infer/Classify.antt =====
-- infer.go: the edges that the classification of all of a node's accesses adds.
use accel.Base.{ℕ, ◌<◌, ◌≡◌, ◌≢◌, refl, ap, inl, inr, ◌⊎◌, true, arith, IsIn, if◌then◌else◌, length}
use accel.Graph.{
  raw, waw, war, Access, read, write, read_write, AccessSpan, reads, writes, overlaps,
}
use accel.Graph.Infer.{ResState, Dag, link, classify_one}
use accel.Graph.Infer.Edges.{Edge, Grows, Grows-trans}
use accel.Graph.Infer.Links.{link-Grows, link-Edge, link_from, Cause}

-- `classify_one`, with the mode as an argument of its own.
abbrev by_mode : ResState → AccessSpan → ℕ → Dag → Access → Dag
by_mode s a n d m =
    let d' = if reads m then link s.writers a n raw d else d in
    if writes m then link s.readers a n war (link s.writers a n waw d') else d'

-- What is pending on a resource and conflicts with an access.
pub data Pending (s : ResState) (a w : AccessSpan) : Type 0 where
  written : IsIn w s.writers → Pending s a w
  readen : IsIn w s.readers → writes a.mode ≡ true → Pending s a w

module _ (s : ResState) (a : AccessSpan) (n : ℕ) where
  writes_twice : Dag → Dag
  writes_twice d = link s.readers a n war (link s.writers a n waw d)

  writes_twice-Grows : (d : Dag) → Grows d (writes_twice d)
  unfolding writes_twice
  writes_twice-Grows d =
      let e = link s.writers a n waw d in
      Grows-trans d e (link s.readers a n war e) (link-Grows s.writers a n waw d)
        (link-Grows s.readers a n war e)

  by_mode-Grows : (d : Dag) (m : Access) → Grows d (by_mode s a n d m)
  unfolding writes_twice
  by_mode-Grows d read = link-Grows s.writers a n raw d
  by_mode-Grows d write = writes_twice-Grows d
  by_mode-Grows d read_write =
      let e = link s.writers a n raw d in
      Grows-trans d e (writes_twice e) (link-Grows s.writers a n raw d) (writes_twice-Grows e)

  module _ (w : AccessSpan) (o : overlaps w a ≡ true) (ne : w.node ≢ n) where
    twice_written :
        (d : Dag) → IsIn w s.writers → w.node < length d.succ → Edge (writes_twice d) w.node n
    unfolding writes_twice
    twice_written d i lt =
        (link-Grows s.readers a n war (link s.writers a n waw d)).keeps w.node n
          (link-Edge s.writers a n waw d w i o ne lt)

    twice_readen :
        (d : Dag) → IsIn w s.readers → w.node < length d.succ → Edge (writes_twice d) w.node n
    unfolding writes_twice
    twice_readen d i lt =
        link-Edge s.readers a n war (link s.writers a n waw d) w i o ne
          (omega (arith, (link-Grows s.writers a n waw d).size))

    written-Edge :
        (d : Dag) (m : Access)
        → IsIn w s.writers
        → w.node < length d.succ
        → Edge (by_mode s a n d m) w.node n
    unfolding writes_twice
    written-Edge d read i lt = link-Edge s.writers a n raw d w i o ne lt
    written-Edge d write i lt = twice_written d i lt
    written-Edge d read_write i lt =
        twice_written (link s.writers a n raw d) i
          (omega (arith, (link-Grows s.writers a n raw d).size))

    readen-Edge :
        (d : Dag) (m : Access)
        → IsIn w s.readers
        → writes m ≡ true
        → w.node < length d.succ
        → Edge (by_mode s a n d m) w.node n
    unfolding writes_twice
    readen-Edge d read i y lt = cc
    readen-Edge d write i y lt = twice_readen d i lt
    readen-Edge d read_write i y lt =
        twice_readen (link s.writers a n raw d) i
          (omega (arith, (link-Grows s.writers a n raw d).size))

  pub one-Grows : (d : Dag) → Grows d (classify_one s a n d)
  unfolding classify_one
  one-Grows d = by_mode-Grows d a.mode

  -- Whatever is pending and conflicts is linked.
  pub one-Edge :
      (d : Dag) (w : AccessSpan)
      → Pending s a w
      → overlaps w a ≡ true
      → w.node ≢ n
      → w.node < length d.succ
      → Edge (classify_one s a n d) w.node n
  unfolding classify_one
  one-Edge d w (written i) o ne lt = written-Edge w o ne d a.mode i lt
  one-Edge d w (readen i y) o ne lt = readen-Edge w o ne d a.mode i y lt

-- Why there is an edge from `i` to `j` after an access of node `n` was classified.
pub record Linked (s : ResState) (a : AccessSpan) (n i j : ℕ) (w : AccessSpan) : Type 0 where
  pub pending : Pending s a w
  pub meets : overlaps w a ≡ true
  pub source : w.node ≡ i
  pub target : j ≡ n
  pub other : i ≢ n

module _ (s : ResState) (a : AccessSpan) (n i j : ℕ) where
  Linked-written :
      (w : AccessSpan) × Cause s.writers a n i j w → (w : AccessSpan) × Linked s a n i j w
  Linked-written (w, c) = (
    w,
    record {
      pending = written c.pending;
      meets = c.meets;
      source = c.source;
      target = c.target;
      other = c.other;
    },
  )

  Linked-readen :
      writes a.mode ≡ true
      → (w : AccessSpan) × Cause s.readers a n i j w
      → (w : AccessSpan) × Linked s a n i j w
  Linked-readen y (w, c) = (
    w,
    record {
      pending = readen c.pending y;
      meets = c.meets;
      source = c.source;
      target = c.target;
      other = c.other;
    },
  )

  twice_from :
      (d : Dag)
      → writes a.mode ≡ true
      → Edge (writes_twice s a n d) i j
      → Edge d i j ⊎ ((w : AccessSpan) × Linked s a n i j w)
  unfolding writes_twice
  twice_from d y e = elim (link_from s.readers a n war (link s.writers a n waw d) i j e) [
    | inr c ↦ inr (Linked-readen y c)
    | inl old ↦ elim (link_from s.writers a n waw d i j old) [
      | inr c ↦ inr (Linked-written c)
      | inl older ↦ inl older
    ]
  ]

  by_mode_from :
      (d : Dag) (m : Access)
      → a.mode ≡ m
      → Edge (by_mode s a n d m) i j
      → Edge d i j ⊎ ((w : AccessSpan) × Linked s a n i j w)
  unfolding writes_twice
  by_mode_from d read p e = elim (link_from s.writers a n raw d i j e) [
    | inr c ↦ inr (Linked-written c)
    | inl old ↦ inl old
  ]
  by_mode_from d write p e = twice_from d (ap writes p) e
  by_mode_from d read_write p e = elim (twice_from (link s.writers a n raw d) (ap writes p) e) [
    | inr c ↦ inr c
    | inl old ↦ elim (link_from s.writers a n raw d i j old) [
      | inr c ↦ inr (Linked-written c)
      | inl older ↦ inl older
    ]
  ]

  -- Nothing else is linked.
  pub one_from :
      (d : Dag)
      → Edge (classify_one s a n d) i j
      → Edge d i j ⊎ ((w : AccessSpan) × Linked s a n i j w)
  unfolding classify_one
  one_from d e = by_mode_from d a.mode refl e
