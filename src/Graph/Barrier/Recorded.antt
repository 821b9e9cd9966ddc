-- ===== src/Graph/Barrier/Recorded.antt =====
-- barrier.go: the range that an access is recorded in.
use accel.Base.{
  ℕ, ◌≡◌, ◌≢◌, refl, ap, inl, inr, ◌⊎◌, true, List, [], ◌∷◌, ◌++◌, ◌==◌, ◌&&◌, arith, IsIn,
  Bool-cases,
}
use accel.Graph.{Ref, AccessSpan, writes}
use accel.Graph.RefMap.{find_state}
use accel.Graph.Barrier.{RangeState, Ranges, ranges_or_none, update, new_range, update_in}

abbrev pub ranges_at : Ranges → Ref → List RangeState
ranges_at st k = ranges_or_none (find_state st k)

-- Something is pending on the range.
abbrev pub IsLive : RangeState → Type 0
IsLive rs = (rs.written ≡ true) ⊎ (rs.read_nodes ≢ [])

append-ne-nil : (xs : List ℕ) (x : ℕ) → xs ++ x ∷ [] ≢ []
append-ne-nil [] x = λ e. cc
append-ne-nil (y ∷ xs) x = λ e. cc

pub span-update : (rs : RangeState) (a : AccessSpan) → (update rs a).span ≡ rs.span
unfolding update
span-update rs a = ground arith

pub written-update :
    (rs : RangeState) (a : AccessSpan) → rs.written ≡ true → (update rs a).written ≡ true
unfolding update
written-update rs a h = ground arith

pub update-written :
    (rs : RangeState) (a : AccessSpan) → writes a.mode ≡ true → (update rs a).written ≡ true
unfolding update
update-written rs a h = ground arith

pub update-IsLive : (rs : RangeState) (a : AccessSpan) → IsLive (update rs a)
unfolding update
update-IsLive rs a = ground (arith, append-ne-nil rs.read_nodes a.node)

pub update_in_keeps :
    (l : List RangeState) (a : AccessSpan) (rs : RangeState)
    → IsIn rs l
    → IsIn rs (update_in l a) ⊎ IsIn (update rs a) (update_in l a)
unfolding update_in
update_in_keeps [] a rs i = absurd i
update_in_keeps (r ∷ l) a rs i = elim (Bool-cases (r.span.off == a.off && r.span.size == a.size)) [
  | inl y ↦ elim i [
    | inl e ↦ inr (rw (y, update_in) (inl (ap (λ q. update q a) e)))
    | inr m ↦ inl (rw (y, update_in) (inr m))
  ]
  | inr n ↦ elim i [
    | inl e ↦ inl (rw (n, update_in) (inl e))
    | inr m ↦ elim (update_in_keeps l a rs m) [
      | inl k ↦ inl (rw (n, update_in) (inr k))
      | inr k ↦ inr (rw (n, update_in) (inr k))
    ]
  ]
]

-- The range that an access was recorded in.
pub record Recorded (l : List RangeState) (a : AccessSpan) (rs : RangeState) : Type 0 where
  pub stored : IsIn (update rs a) (update_in l a)
  pub old : IsIn rs l ⊎ (rs ≡ new_range a)
  pub off : rs.span.off ≡ a.off
  pub size : rs.span.size ≡ a.size

pub update_in_adds : (l : List RangeState) (a : AccessSpan) → (rs : RangeState) × Recorded l a rs
unfolding update_in
update_in_adds [] a =
    (new_range a, record { stored = inl refl; old = inr refl; off = refl; size = refl })
update_in_adds (r ∷ l) a = elim (Bool-cases (r.span.off == a.off && r.span.size == a.size)) [
  | inl y ↦ (
    r,
    record {
      stored = rw (y, update_in) (inl refl);
      old = inl (inl refl);
      off = ground arith;
      size = ground arith;
    },
  )
  | inr n ↦
      let (rs, q) = update_in_adds l a in
      (
        rs,
        record {
          stored = rw (n, update_in) (inr q.stored);
          old = elim (q.old) [ inl m ↦ inl (inr m) | inr e ↦ inr e ];
          off = q.off;
          size = q.size;
        },
      )
]
