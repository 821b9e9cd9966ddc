-- ===== src/Graph/Infer/Spans.antt =====
-- infer.go: what `overlaps`, `covers` and `key` have to do with one another.
use accel.Base.{◌+◌, ◌<◌, ◌≤◌, ◌≡◌, ◌↔◌, true, arith}
use accel.Graph.Keys.{same_resource_trans, same_resource_symm}
use accel.Graph.{AccessSpan, same_resource, overlaps, covers}

-- The Boolean tests as facts.
pub record Meets (a b : AccessSpan) : Type 0 where
  pub same : same_resource a.res b.res ≡ true
  pub before : a.off < b.off + b.size
  pub after : b.off < a.off + a.size

pub record Contains (a b : AccessSpan) : Type 0 where
  pub same : same_resource a.res b.res ≡ true
  pub from : a.off ≤ b.off
  pub until : b.off + b.size ≤ a.off + a.size

pub overlaps-Meets : (a b : AccessSpan) → (overlaps a b ≡ true) ↔ Meets a b
unfolding overlaps
overlaps-Meets a b = ground arith

pub covers-Contains : (a b : AccessSpan) → (covers a b ≡ true) ↔ Contains a b
unfolding covers
covers-Contains a b = ground arith

-- What overlaps a covered span overlaps the one that covers it, empty spans included.
pub Contains-Meets : (a w b : AccessSpan) → Contains a w → Meets w b → Meets a b
Contains-Meets a w b c m = record {
  same = same_resource_trans a.res w.res b.res c.same m.same;
  before = omega (arith, c.from, m.before);
  after = omega (arith, c.until, m.after);
}

-- A covered span that is not empty overlaps the one that covers it.
pub Contains-sized : (a w : AccessSpan) → Contains a w → 0 < w.size → Meets w a
Contains-sized a w c pos = record {
  same = same_resource_symm a.res w.res c.same;
  before = omega (arith, c.from, c.until);
  after = omega (arith, c.from, c.until);
}
