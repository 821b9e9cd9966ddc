-- ===== src/Graph/Barrier/Noted.antt =====
-- barrier.go: how an access stays pending until a barrier clears it.
use accel.Base.{
  IsIn-map, ◌≡◌, ◌≢◌, refl, sym, ◌∙◌, ap, inl, inr, ◌⊎◌, true, some, List, [], ◌∷◌, ◌==◌, ◌&&◌,
  arith, IsIn, subst, Bool-cases, map,
}
use accel.Graph.{Ref, AccessSpan, writes, key, ref_eq}
use accel.Graph.Keys.{Ref-discrete, ref_eq_iff}
use accel.Graph.RefMap.{find_state, put_state, find-put}
use accel.Graph.Barrier.{
  RangeState, Ranges, ranges_or_none, update, new_range, update_in, commit_range, commit_ranges,
  clear_range, clear_pending,
}
use accel.Graph.Barrier.Recorded.{
  ranges_at, IsLive, span-update, written-update, update-written, update-IsLive, update_in_keeps,
  update_in_adds,
}

-- The range in which an access `x` is still pending.
pub record Noted (st : Ranges) (x : AccessSpan) (rs : RangeState) : Type 0 where
  pub stored : IsIn rs (ranges_at st (key x.res))
  pub same : key rs.span.res ≡ key x.res
  pub off : rs.span.off ≡ x.off
  pub size : rs.span.size ≡ x.size
  pub wrote : writes x.mode ≡ true → rs.written ≡ true
  pub live : IsLive rs

-- Every range is stored under its own key.
abbrev pub Keyed : Ranges → Type 0
Keyed st = (k : Ref) (rs : RangeState) → IsIn rs (ranges_at st k) → key rs.span.res ≡ k

ranges-commit_same :
    (st : Ranges) (a : AccessSpan)
    → ranges_at (commit_range st a) (key a.res) ≡ update_in (ranges_at st (key a.res)) a
unfolding commit_range
ranges-commit_same st a =
    let k = key a.res in
    let l = update_in (ranges_at st k) a in
    let at : find_state (put_state st k l) k ≡ some l =
      find-put st k l k ∙ ground (arith, ref_eq_iff k k) in
    ap ranges_or_none at

ranges-commit_other :
    (st : Ranges) (a : AccessSpan) (k : Ref)
    → key a.res ≢ k
    → ranges_at (commit_range st a) k ≡ ranges_at st k
unfolding commit_range
ranges-commit_other st a k ne =
    let j = key a.res in
    let l = update_in (ranges_at st j) a in
    let at : find_state (put_state st j l) k ≡ find_state st k =
      find-put st j l k ∙ ground (arith, ref_eq_iff j k) in
    ap ranges_or_none at

commit_range-Noted :
    (st : Ranges) (a x : AccessSpan) (rs : RangeState)
    → Noted st x rs
    → (rs' : RangeState) × Noted (commit_range st a) x rs'
commit_range-Noted st a x rs v = elim (Ref-discrete (key a.res) (key x.res)) [
  | no ne ↦ (
    rs,
    record {
      stored = subst (IsIn rs) (sym (ranges-commit_other st a (key x.res) ne)) v.stored;
      same = v.same;
      off = v.off;
      size = v.size;
      wrote = v.wrote;
      live = v.live;
    },
  )
  | yes e ↦ here e (
      update_in_keeps (ranges_at st (key a.res)) a rs
        (subst (λ k. IsIn rs (ranges_at st k)) (sym e) v.stored))
]
  where
    at :
        key a.res ≡ key x.res
        → (q : RangeState) → IsIn q (update_in (ranges_at st (key a.res)) a)
        → IsIn q (ranges_at (commit_range st a) (key x.res))
    at e q i =
        subst (λ k. IsIn q (ranges_at (commit_range st a) k)) e
          (subst (IsIn q) (sym (ranges-commit_same st a)) i)

    here :
        key a.res ≡ key x.res
        → IsIn rs (update_in (ranges_at st (key a.res)) a)
          ⊎ IsIn (update rs a) (update_in (ranges_at st (key a.res)) a)
        → (rs' : RangeState) × Noted (commit_range st a) x rs'
    here e (inl i) = (
      rs,
      record {
        stored = at e rs i;
        same = v.same;
        off = v.off;
        size = v.size;
        wrote = v.wrote;
        live = v.live;
      },
    )
    here e (inr i) =
        let s = span-update rs a in
        (
          update rs a,
          record {
            stored = at e (update rs a) i;
            same = ap (λ q. key q.res) s ∙ v.same;
            off = ap (λ q. q.off) s ∙ v.off;
            size = ap (λ q. q.size) s ∙ v.size;
            wrote = λ w. written-update rs a (v.wrote w);
            live = update-IsLive rs a;
          },
        )

update_in_from :
    (l : List RangeState) (a : AccessSpan) (q : RangeState)
    → IsIn q (update_in l a)
    → IsIn q l ⊎ ((rs : RangeState) × (q ≡ update rs a) × (IsIn rs l ⊎ (rs ≡ new_range a)))
unfolding update_in
update_in_from [] a q (inl e) = inr (new_range a, e, inr refl)
update_in_from [] a q (inr void) = absurd void
update_in_from (r ∷ l) a q i = elim (Bool-cases (r.span.off == a.off && r.span.size == a.size)) [
  | inl y ↦ elim (rw (y, update_in) at i) [
    | inl e ↦ inr (r, e, inl (inl refl))
    | inr m ↦ inl (inr m)
  ]
  | inr n ↦ elim (rw (n, update_in) at i) [
    | inl e ↦ inl (inl e)
    | inr m ↦ elim (update_in_from l a q m) [
      | inl o ↦ inl (inr o)
      | inr (rs, e, inl o) ↦ inr (rs, e, inl (inr o))
      | inr (rs, e, inr o) ↦ inr (rs, e, inr o)
    ]
  ]
]

key_of_recorded :
    (st : Ranges) (a : AccessSpan) (rs : RangeState)
    → Keyed st
    → IsIn rs (ranges_at st (key a.res)) ⊎ (rs ≡ new_range a)
    → key (update rs a).span.res ≡ key a.res
key_of_recorded st a rs k o =
    ap (λ s. key s.res) (span-update rs a)
    ∙ elim o [ inl i ↦ k (key a.res) rs i | inr e ↦ ap (λ q. key q.span.res) e ]

pub commit_range-Keyed : (st : Ranges) (a : AccessSpan) → Keyed st → Keyed (commit_range st a)
commit_range-Keyed st a h k rs i = elim (Ref-discrete (key a.res) k) [
  | no ne ↦ h k rs (subst (IsIn rs) (ranges-commit_other st a k ne) i)
  | yes e ↦
      stored (
        update_in_from (ranges_at st (key a.res)) a rs (
          subst (IsIn rs) (ranges-commit_same st a)
            (subst (λ j. IsIn rs (ranges_at (commit_range st a) j)) (sym e) i)))
      ∙ e
]
  where
    stored :
        IsIn rs (ranges_at st (key a.res))
          ⊎ ((q : RangeState) × (rs ≡ update q a)
              × (IsIn q (ranges_at st (key a.res)) ⊎ (q ≡ new_range a)))
        → key rs.span.res ≡ key a.res
    stored (inl m) = h (key a.res) rs m
    stored (inr (q, e, o)) = ap (λ r. key r.span.res) e ∙ key_of_recorded st a q h o

-- An access is pending once it is committed.
commit_range_adds :
    (st : Ranges) (a : AccessSpan) → Keyed st → (rs : RangeState) × Noted (commit_range st a) a rs
commit_range_adds st a k =
    let (rs, q) = update_in_adds (ranges_at st (key a.res)) a in
    let s = span-update rs a in
    (
      update rs a,
      record {
        stored = subst (IsIn (update rs a)) (sym (ranges-commit_same st a)) q.stored;
        same = key_of_recorded st a rs k q.old;
        off = ap (λ r. r.off) s ∙ q.off;
        size = ap (λ r. r.size) s ∙ q.size;
        wrote = update-written rs a;
        live = update-IsLive rs a;
      },
    )

pub commit_ranges-Keyed :
    (rest : List AccessSpan) (st : Ranges) → Keyed st → Keyed (commit_ranges st rest)
unfolding commit_ranges
commit_ranges-Keyed [] st k = k
commit_ranges-Keyed (a ∷ rest) st k =
    commit_ranges-Keyed rest (commit_range st a) (commit_range-Keyed st a k)

pub commit_ranges-Noted :
    (rest : List AccessSpan) (st : Ranges) (x : AccessSpan) (rs : RangeState)
    → Noted st x rs
    → (rs' : RangeState) × Noted (commit_ranges st rest) x rs'
unfolding commit_ranges
commit_ranges-Noted [] st x rs v = (rs, v)
commit_ranges-Noted (a ∷ rest) st x rs v =
    let (r, w) = commit_range-Noted st a x rs v in
    commit_ranges-Noted rest (commit_range st a) x r w

pub commit_ranges_adds :
    (rest : List AccessSpan) (st : Ranges) (x : AccessSpan)
    → Keyed st
    → IsIn x rest
    → (rs : RangeState) × Noted (commit_ranges st rest) x rs
unfolding commit_ranges
commit_ranges_adds [] st x k i = absurd i
commit_ranges_adds (a ∷ rest) st x k (inl e) =
    let (r, w) = commit_range_adds st a k in
    commit_ranges-Noted rest (commit_range st a) x r
      (subst (λ q. Noted (commit_range st a) q r) (sym e) w)
commit_ranges_adds (a ∷ rest) st x k (inr i) =
    commit_ranges_adds rest (commit_range st a) x (commit_range-Keyed st a k) i

ranges-clear_pending :
    (st : Ranges) (k : Ref) → ranges_at (clear_pending st) k ≡ map clear_range (ranges_at st k)
unfolding clear_pending find_state
ranges-clear_pending [] k = refl
ranges-clear_pending ((j, l) ∷ st) k = elim (Bool-cases (ref_eq j k)) [
  | inl y ↦ rw (y, find_state)
  | inr n ↦ rw (n, find_state) (ranges-clear_pending st k)
]

pub clear_pending-Keyed : (st : Ranges) → Keyed st → Keyed (clear_pending st)
unfolding clear_range
clear_pending-Keyed st h k rs i =
    let (q, m, e) =
      IsIn-map clear_range (ranges_at st k) rs (subst (IsIn rs) (ranges-clear_pending st k) i) in
    ap (λ r. key r.span.res) e ∙ h k q m
