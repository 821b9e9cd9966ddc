-- ===== src/Graph/Infer/States.antt =====
-- infer.go: the pending spans that a key leads to, and what `commit` does to them.
use accel.Base.{
  ◌≡◌, ◌≢◌, refl, ◌∙◌, ap, inl, inr, ◌⊎◌, true, false, not, some, arith, List, [], ◌∷◌, ◌++◌,
  Bool-cases, IsIn, IsIn-append, IsIn-append_left, IsIn-append_right, IsIn-keep, keep-IsIn,
}
use accel.Graph.Keys.{ref_eq_iff}
use accel.Graph.RefMap.{find_state, put_state, find-put}
use accel.Graph.{Ref, AccessSpan, writes, key, covers}
use accel.Graph.Infer.{ResState, States, keep_uncovered, state_or_new, commit_to, commit}
use accel.Graph.Infer.Spans.{Contains, covers-Contains}

-- The pending spans of a resource; of an unknown one there are none.
abbrev pub writers_at : States → Ref → List AccessSpan
writers_at st k = (state_or_new (find_state st k)).writers

abbrev pub readers_at : States → Ref → List AccessSpan
readers_at st k = (state_or_new (find_state st k)).readers

pub commit_same :
    (st : States) (a : AccessSpan)
    → state_or_new (find_state (commit st a) (key a.res))
      ≡ commit_to (state_or_new (find_state st (key a.res))) a
unfolding commit
commit_same st a =
    let k = key a.res in
    let v = commit_to (state_or_new (find_state st k)) a in
    let at : find_state (put_state st k v) k ≡ some v =
      find-put st k v k ∙ ground (arith, ref_eq_iff k k) in
    ap state_or_new at

pub commit_other :
    (st : States) (a : AccessSpan) (j : Ref)
    → key a.res ≢ j
    → find_state (commit st a) j ≡ find_state st j
unfolding commit
commit_other st a j ne =
    let k = key a.res in
    let v = commit_to (state_or_new (find_state st k)) a in
    find-put st k v j ∙ ground (arith, ref_eq_iff k j)

-- A span outlasts the trimming, or is covered.
trimmed :
    (a w : AccessSpan) (ws : List AccessSpan)
    → IsIn w ws
    → IsIn w (keep_uncovered ws a) ⊎ Contains a w
unfolding keep_uncovered
trimmed a w ws m = elim (Bool-cases (covers a w)) [
  | inl y ↦ inr ((covers-Contains a w).0 y)
  | inr n ↦ inl (IsIn-keep (λ s. not (covers a s)) ws w m (rw n))
]

trimmed_from : (a w : AccessSpan) (ws : List AccessSpan) → IsIn w (keep_uncovered ws a) → IsIn w ws
unfolding keep_uncovered
trimmed_from a w ws m = (keep-IsIn (λ s. not (covers a s)) ws w m).0

-- A pending write stays, unless the new access is a write that covers it.
pub writer_kept :
    (s : ResState) (a w : AccessSpan)
    → IsIn w s.writers
    → IsIn w (commit_to s a).writers ⊎ (writes a.mode ≡ true) × Contains a w
unfolding commit_to
writer_kept s a w m =
    ground
      (arith, trimmed a w s.writers m, IsIn-append_left w (keep_uncovered s.writers a) (a ∷ []))

pub reader_kept :
    (s : ResState) (a w : AccessSpan)
    → IsIn w s.readers
    → IsIn w (commit_to s a).readers ⊎ (writes a.mode ≡ true) × Contains a w
unfolding commit_to
reader_kept s a w m = ground (
  arith,
  trimmed a w s.readers m,
  trimmed a w (s.readers ++ a ∷ []),
  IsIn-append_left w s.readers (a ∷ []) m,
)

pub writer_added :
    (s : ResState) (a : AccessSpan) → writes a.mode ≡ true → IsIn a (commit_to s a).writers
unfolding commit_to
writer_added s a h = rw h (IsIn-append_right a (keep_uncovered s.writers a) (a ∷ []) (inl refl))

pub reader_added :
    (s : ResState) (a : AccessSpan) → writes a.mode ≡ false → IsIn a (commit_to s a).readers
unfolding commit_to
reader_added s a h = ground (arith, IsIn-append_right a s.readers (a ∷ []) (inl refl))

-- Nothing else is pending, and only writes are pending writers.
pub writer_from :
    (s : ResState) (a w : AccessSpan)
    → IsIn w (commit_to s a).writers
    → IsIn w s.writers ⊎ (w ≡ a) × (writes a.mode ≡ true)
unfolding commit_to
writer_from s a w m =
    ground (arith, trimmed_from a w s.writers, IsIn-append w (keep_uncovered s.writers a) (a ∷ []))

pub reader_from :
    (s : ResState) (a w : AccessSpan) → IsIn w (commit_to s a).readers → IsIn w s.readers ⊎ (w ≡ a)
unfolding commit_to
reader_from s a w m = ground (
  arith,
  trimmed_from a w s.readers,
  trimmed_from a w (s.readers ++ a ∷ []),
  IsIn-append w s.readers (a ∷ []),
)
