-- ===== src/Graph/Infer/StandIns.antt =====
-- infer.go: why dropping a covered span loses no ordering. A span that was dropped is stood in for
-- by one that overlaps whatever it overlaps and that is ordered after it.
use accel.Base.{ℕ, ◌≡◌, refl, inl, inr, ◌⊎◌, true, List, IsIn, Bool-cases}
use accel.Graph.{AccessSpan, writes, overlaps}
use accel.Graph.Infer.{ResState, States, Dag, commit_to}
use accel.Graph.Infer.Spans.{Contains, overlaps-Meets, Contains-Meets}
use accel.Graph.Infer.States.{writer_kept, reader_kept, writer_added, reader_added}
use accel.Graph.Infer.Edges.{Edge, Grows}
use accel.Graph.Infer.Nodes.{state_of}

-- `j` is ordered after `i` by the edges.
pub data Before (d : Dag) : ℕ → ℕ → Type 0 where
  direct : {i j : ℕ} → Edge d i j → Before d i j
  via : {i k j : ℕ} → Edge d i k → Before d k j → Before d i j

pub Before-trans : (d : Dag) {i k j : ℕ} → Before d i k → Before d k j → Before d i j
Before-trans d (direct e) q = via e q
Before-trans d (via e p) q = via e (Before-trans d p q)

pub Before-Grows : (d d' : Dag) → Grows d d' → {i j : ℕ} → Before d i j → Before d' i j
Before-Grows d d' g (direct {i} {j} e) = direct (g.keeps i j e)
Before-Grows d d' g (via {i} {k} {j} e p) = via (g.keeps i k e) (Before-Grows d d' g p)

abbrev pub Upto : Dag → ℕ → ℕ → Type 0
Upto d i j = (i ≡ j) ⊎ Before d i j

pub Upto-trans : (d : Dag) (i k j : ℕ) → Upto d i k → Upto d k j → Upto d i j
Upto-trans d i k j (inl e) q = rw e q
Upto-trans d i k j (inr p) (inl e) = inr (rw (← e) p)
Upto-trans d i k j (inr p) (inr q) = inr (Before-trans d p q)

-- `w`, among `ws`, stands in for `x` against `b`.
pub record Stands (d : Dag) (ws : List AccessSpan) (x b w : AccessSpan) : Type 0 where
  pub pending : IsIn w ws
  pub meets : overlaps w b ≡ true
  pub after : Upto d x.node w.node

pub record Stood (s : ResState) (d : Dag) (x b : AccessSpan) : Type 0 where
  pub written : writes x.mode ≡ true → (w : AccessSpan) × Stands d s.writers x b w
  pub touched :
      ((w : AccessSpan) × Stands d s.writers x b w) ⊎ ((w : AccessSpan) × Stands d s.readers x b w)

-- Against whatever overlaps it, `x` has a stand-in.
abbrev pub Covered : States → Dag → AccessSpan → Type 0
Covered st d x = (b : AccessSpan) → overlaps x b ≡ true → Stood (state_of st b) d x b

module _ (d : Dag) (s : ResState) (a : AccessSpan)
    (dropped : (w : AccessSpan)
      → IsIn w s.writers ⊎ IsIn w s.readers
      → writes a.mode ≡ true
      → Contains a w
      → Upto d w.node a.node) where
  by_new :
      (x b w : AccessSpan)
      → Upto d x.node w.node
      → overlaps w b ≡ true
      → IsIn w s.writers ⊎ IsIn w s.readers
      → writes a.mode ≡ true
      → Contains a w
      → Stands d (commit_to s a).writers x b a
  by_new x b w u o i y c = record {
    pending = writer_added s a y;
    meets = (overlaps-Meets a b).1 (Contains-Meets a w b c ((overlaps-Meets w b).0 o));
    after = Upto-trans d x.node w.node a.node u (dropped w i y c);
  }

  writer-Stands :
      (x b : AccessSpan)
      → (w : AccessSpan) × Stands d s.writers x b w
      → (w : AccessSpan) × Stands d (commit_to s a).writers x b w
  writer-Stands x b (w, t) = elim (writer_kept s a w t.pending) [
    | inl i ↦ (w, record { pending = i; meets = t.meets; after = t.after })
    | inr (y, c) ↦ (a, by_new x b w t.after t.meets (inl t.pending) y c)
  ]

  reader-Stands :
      (x b : AccessSpan)
      → (w : AccessSpan) × Stands d s.readers x b w
      → ((w : AccessSpan) × Stands d (commit_to s a).writers x b w)
        ⊎ ((w : AccessSpan) × Stands d (commit_to s a).readers x b w)
  reader-Stands x b (w, t) = elim (reader_kept s a w t.pending) [
    | inl i ↦ inr (w, record { pending = i; meets = t.meets; after = t.after })
    | inr (y, c) ↦ inl (a, by_new x b w t.after t.meets (inr t.pending) y c)
  ]

  pub commit_to-Stood : (x b : AccessSpan) → Stood s d x b → Stood (commit_to s a) d x b
  commit_to-Stood x b t = record {
    written = λ y. writer-Stands x b (t.written y);
    touched = elim (t.touched) [ inl w ↦ inl (writer-Stands x b w) | inr r ↦ reader-Stands x b r ];
  }

-- The access committed is its own stand-in.
pub commit_to_self :
    (d : Dag) (s : ResState) (a b : AccessSpan) → overlaps a b ≡ true → Stood (commit_to s a) d a b
commit_to_self d s a b o =
    let as_writer : writes a.mode ≡ true
        → (w : AccessSpan) × Stands d (commit_to s a).writers a b w =
      λ y. (a, record { pending = writer_added s a y; meets = o; after = inl refl }) in
    record {
      written = as_writer;
      touched = elim (Bool-cases (writes a.mode)) [
        | inl y ↦ inl (as_writer y)
        | inr n ↦ inr (a, record { pending = reader_added s a n; meets = o; after = inl refl })
      ];
    }
