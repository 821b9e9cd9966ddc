-- ===== src/Graph/Infer/Fresh.antt =====
-- infer.go: what holds of every pending span, and the commits of one node after the other.
use accel.Base.{ℕ, ◌<◌, ◌≡◌, refl, sym, ◌∙◌, inl, inr, ◌⊎◌, true, List, [], ◌∷◌, IsIn, subst}
use accel.Graph.Keys.{key-eq_of_same, Ref-discrete}
use accel.Graph.RefMap.{find_state}
use accel.Graph.{Ref, AccessSpan, writes, key, overlaps}
use accel.Graph.Infer.{States, state_or_new, Dag, commit_to, commit, commit_all}
use accel.Graph.Infer.Spans.{Contains, overlaps-Meets, Contains-sized}
use accel.Graph.Infer.States.{
  writers_at, readers_at, commit_same, commit_other, writer_from, reader_from,
}
use accel.Graph.Infer.Edges.{Edge}
use accel.Graph.Infer.Nodes.{state_of}
use accel.Graph.Infer.StandIns.{direct, Upto, Stood, Covered, commit_to-Stood, commit_to_self}

-- `P` holds of every pending span, with the key that it is stored under.
abbrev pub Holds : (Ref → AccessSpan → Type 0) → States → Type 0
Holds P st =
    (k : Ref) (w : AccessSpan) → IsIn w (writers_at st k) ⊎ IsIn w (readers_at st k) → P k w

pub commit-Holds :
    (P : Ref → AccessSpan → Type 0) (st : States) (a : AccessSpan)
    → P (key a.res) a
    → Holds P st
    → Holds P (commit st a)
commit-Holds P st a pa h k w m = elim (Ref-discrete (key a.res) k) [
  | no ne ↦ h k w (
      subst (λ o. IsIn w (state_or_new o).writers ⊎ IsIn w (state_or_new o).readers)
        (commit_other st a k ne) m)
  | yes e ↦
      subst (λ j. P j w) e
        (stored
          (subst (λ s. IsIn w s.writers ⊎ IsIn w s.readers) (commit_same st a) (rw (← e) at m)))
]
  where
    fits : IsIn w (writers_at st (key a.res)) ⊎ IsIn w (readers_at st (key a.res)) → P (key a.res) w
    fits i = h (key a.res) w i

    is_new : w ≡ a → P (key a.res) w
    is_new e = rw e pa

    stored :
        IsIn w (commit_to (state_of st a) a).writers ⊎ IsIn w (commit_to (state_of st a) a).readers
        → P (key a.res) w
    stored (inl i) = elim (writer_from (state_of st a) a w i) [
      | inl o ↦ fits (inl o)
      | inr (e, _) ↦ is_new e
    ]
    stored (inr i) = elim (reader_from (state_of st a) a w i) [
      | inl o ↦ fits (inr o)
      | inr e ↦ is_new e
    ]

pub commit_all-Holds :
    (P : Ref → AccessSpan → Type 0) (rest : List AccessSpan) (st : States)
    → ((a : AccessSpan) → IsIn a rest → P (key a.res) a)
    → Holds P st
    → Holds P (commit_all st rest)
unfolding commit_all
commit_all-Holds P [] st ps h = h
commit_all-Holds P (a ∷ rest) st ps h =
    commit_all-Holds P rest (commit st a) (λ b m. ps b (inr m))
      (commit-Holds P st a (ps a (inl refl)) h)

-- While node `n` commits `spans`: what is pending is not empty, and where a write of the node
-- overlaps it, it is the node's own or linked to it.
pub record Settled (d : Dag) (spans : List AccessSpan) (n : ℕ) (k : Ref) (w : AccessSpan)
    : Type 0 where
  pub stored : key w.res ≡ k
  pub sized : 0 < w.size
  pub linked :
      (a : AccessSpan)
      → IsIn a spans
      → writes a.mode ≡ true
      → overlaps w a ≡ true
      → (w.node ≡ n) ⊎ Edge d w.node n

module _ (d : Dag) (spans : List AccessSpan) (n : ℕ)
    (own : (a : AccessSpan) → IsIn a spans → (a.node ≡ n) × (0 < a.size)) where
  own-Settled : (a : AccessSpan) → IsIn a spans → Settled d spans n (key a.res) a
  own-Settled a m = record {
    stored = refl;
    sized = (own a m).1;
    linked = λ b _ _ _. inl (own a m).0;
  }

  dropped :
      (st : States) (a : AccessSpan)
      → IsIn a spans
      → Holds (Settled d spans n) st
      → (w : AccessSpan) → IsIn w (state_of st a).writers ⊎ IsIn w (state_of st a).readers
      → writes a.mode ≡ true
      → Contains a w
      → Upto d w.node a.node
  dropped st a m h w i y c =
      let t = h (key a.res) w i in
      let o = (overlaps-Meets w a).1 (Contains-sized a w c t.sized) in
      elim (t.linked a m y o) [
        | inl e ↦ inl (e ∙ sym (own a m).0)
        | inr e ↦ inr (direct (rw (own a m).0 e))
      ]

  at_key :
      (st : States) (a x b : AccessSpan)
      → key a.res ≡ key b.res
      → Stood (commit_to (state_of st a) a) d x b
      → Stood (state_of (commit st a) b) d x b
  at_key st a x b e t =
      subst (λ k. Stood (state_or_new (find_state (commit st a) k)) d x b) e
        (subst (λ s. Stood s d x b) (sym (commit_same st a)) t)

  commit-keeps :
      (st : States) (a x : AccessSpan)
      → IsIn a spans
      → Holds (Settled d spans n) st
      → Covered st d x
      → Covered (commit st a) d x
  commit-keeps st a x m h c b o = elim (Ref-discrete (key a.res) (key b.res)) [
    | no ne ↦
        subst (λ s. Stood (state_or_new s) d x b) (sym (commit_other st a (key b.res) ne)) (c b o)
    | yes e ↦ at_key st a x b e (
        commit_to-Stood d (state_of st a) a (dropped st a m h) x b
          (subst (λ k. Stood (state_or_new (find_state st k)) d x b) (sym e) (c b o)))
  ]

  commit-adds : (st : States) (a : AccessSpan) → Covered (commit st a) d a
  commit-adds st a b o =
      at_key st a a b (key-eq_of_same a.res b.res ((overlaps-Meets a b).0 o).same)
        (commit_to_self d (state_of st a) a b o)

  -- The commits of the node's accesses keep what is covered, and cover the accesses.
  pub commit_all-keeps :
      (rest : List AccessSpan) (st : States) (x : AccessSpan)
      → ((a : AccessSpan) → IsIn a rest → IsIn a spans)
      → Holds (Settled d spans n) st
      → Covered st d x
      → Covered (commit_all st rest) d x
  unfolding commit_all
  commit_all-keeps [] st x sub h c = c
  commit_all-keeps (a ∷ rest) st x sub h c =
      let m = sub a (inl refl) in
      commit_all-keeps rest (commit st a) x (λ b i. sub b (inr i))
        (commit-Holds (Settled d spans n) st a (own-Settled a m) h) (commit-keeps st a x m h c)

  pub commit_all-adds :
      (rest : List AccessSpan) (st : States) (x : AccessSpan)
      → ((a : AccessSpan) → IsIn a rest → IsIn a spans)
      → Holds (Settled d spans n) st
      → IsIn x rest
      → Covered (commit_all st rest) d x
  unfolding commit_all
  commit_all-adds [] st x sub h i = absurd i
  commit_all-adds (a ∷ rest) st x sub h (inl e) =
      let m = sub a (inl refl) in
      commit_all-keeps rest (commit st a) x (λ b i. sub b (inr i))
        (commit-Holds (Settled d spans n) st a (own-Settled a m) h)
        (subst (Covered (commit st a) d) (sym e) (commit-adds st a))
  commit_all-adds (a ∷ rest) st x sub h (inr i) =
      commit_all-adds rest (commit st a) x (λ b j. sub b (inr j))
        (commit-Holds (Settled d spans n) st a (own-Settled a (sub a (inl refl))) h) i
