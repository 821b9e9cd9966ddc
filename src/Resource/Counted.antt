-- ===== src/Resource/Counted.antt =====
-- resource.go: the count is of the holders and of the caller's handle.
use native.Mathlib.Decide.{ℕ_discrete}
use accel.Base.{
  if_true, ℕ, suc, ◌+◌, ◌-◌, ◌%◌, ◌^◌, ◌<◌, ◌≤◌, ◌≡◌, refl, sym, ap, ◌∙◌, subst, Bool, true, false,
  ◌||◌, ◌==◌, ==_iff, leb, if◌then◌else◌, arith, Bool-cases, inl, inr,
}
use accel.Resource.{
  ResourceState, init_state, retain, release, begin_close, Life, new_life, release_free, Step,
  granted, refused, released, began, again, finished, Run, start, next,
}

-- The references that the caller's handle still has.
abbrev pub handle : Bool → ℕ → ℕ
handle false closing = 1
handle true closing = closing

pub record IsCounted (n : ℕ) (l : Life) : Type 0 where
  pub few : l.holders ≤ n
  pub counted : l.state.refs ≡ l.holders + handle l.state.closed l.closing
  pub once : l.closing ≤ 1
  pub opened : l.state.closed ≡ false → l.closing ≡ 0
  pub gone : l.state.refs ≡ 0 → l.freed ≡ 1
  pub kept : 0 < l.state.refs → l.freed ≡ 0

start-IsCounted : IsCounted 0 new_life
unfolding new_life init_state
start-IsCounted = record {
  few = omega arith;
  counted = refl;
  once = omega arith;
  opened = λ e. refl;
  gone = λ e. absurd (omega (arith, e));
  kept = λ e. refl;
}

handle-le : (c : Bool) (k : ℕ) → k ≤ 1 → handle c k ≤ 1
handle-le true k h = h
handle-le false k h = omega arith

-- The count is far from the largest `int32`.
counted-le : (n : ℕ) (l : Life) → IsCounted n l → l.state.refs ≤ suc n
counted-le n l i = omega (arith, i.few, i.counted, handle-le l.state.closed l.closing i.once)

retain_live :
    (r : ResourceState)
    → 0 < r.refs
    → suc r.refs < 2 ^ 31
    → retain r ≡ (true, record r { refs = suc r.refs })
unfolding retain
retain_live r pos int =
    let live : (r.refs == 0 || leb (2 ^ 31) r.refs) ≡ false = ground (arith, ==_iff r.refs 0) in
    let more : (r.refs + 1) % 2 ^ 32 ≡ suc r.refs = omega (arith, int) in
    rw live (ap (λ n. (true, record r { refs = n })) more)

pub retain_freed : (r : ResourceState) → r.refs ≡ 0 → retain r ≡ (false, r)
unfolding retain
retain_freed r e =
    let none_left : (r.refs == 0 || leb (2 ^ 31) r.refs) ≡ true = ground (arith, ==_iff r.refs 0) in
    rw none_left refl

release_counted :
    (r : ResourceState)
    → 0 < r.refs
    → r.refs < 2 ^ 31
    → release r ≡ (r.refs - 1 == 0, record r { refs = r.refs - 1 })
unfolding release
release_counted r pos int =
    let less : (r.refs + 2 ^ 32 - 1) % 2 ^ 32 ≡ r.refs - 1 = omega (arith, pos, int) in
    ap (λ n. (n == 0, record r { refs = n })) less

-- A refused retain changes nothing, and one that is granted adds a reference.
granted-IsCounted :
    (n : ℕ) (l : Life) (s : ResourceState)
    → suc n < 2 ^ 31 - 1
    → IsCounted n l
    → retain l.state ≡ (true, s)
    → IsCounted (suc n) (record l { state = s; holders = suc l.holders })
granted-IsCounted n l s int i e = elim (ℕ_discrete l.state.refs 0) [
  | yes none_left ↦ absurd (cc (retain_freed l.state none_left, e))
  | no live ↦
      let pos : 0 < l.state.refs = omega (arith, live) in
      let made = retain_live l.state pos (omega (arith, int, counted-le n l i)) in
      let s_is : record l.state { refs = suc l.state.refs } ≡ s = ap (λ p. p.1) (sym made ∙ e) in
      subst (λ s. IsCounted (suc n) (record l { state = s; holders = suc l.holders })) s_is
        (record {
          few = omega (arith, i.few);
          counted = omega (arith, i.counted);
          once = i.once;
          opened = i.opened;
          gone = λ e. absurd (omega (arith, e));
          kept = λ h. i.kept pos;
        })
]

refused-IsCounted :
    (n : ℕ) (l : Life) (s : ResourceState)
    → suc n < 2 ^ 31 - 1
    → IsCounted n l
    → retain l.state ≡ (false, s)
    → IsCounted n (record l { state = s })
refused-IsCounted n l s int i e = elim (ℕ_discrete l.state.refs 0) [
  | yes none_left ↦
      subst (λ s. IsCounted n (record l { state = s }))
        (ap (λ p. p.1) (sym (retain_freed l.state none_left) ∙ e)) i
  | no live ↦
      let pos : 0 < l.state.refs = omega (arith, live) in
      absurd (cc (retain_live l.state pos (omega (arith, int, counted-le n l i)), e))
]

-- Giving up a reference frees the memory if it is the last.
drop-IsCounted :
    (n : ℕ) (l : Life) (holders closing : ℕ)
    → suc n < 2 ^ 31 - 1
    → IsCounted n l
    → 0 < l.state.refs
    → holders ≤ n
    → l.state.refs ≡ suc (holders + handle l.state.closed closing)
    → closing ≤ 1
    → (l.state.closed ≡ false → closing ≡ 0)
    → IsCounted n (record (release_free l) { holders = holders; closing = closing })
unfolding release_free
drop-IsCounted n l holders closing int i pos few count once opened =
    let made = release_counted l.state pos (omega (arith, int, counted-le n l i)) in
    let fresh : l.freed ≡ 0 = i.kept pos in
    subst
      (λ (r : Bool × ResourceState). IsCounted n (record {
        state = r.1;
        freed = if r.0 then suc l.freed else l.freed;
        holders = holders;
        closing = closing;
      }))
      (sym made)
      (record {
        few = few;
        counted = omega (arith, count);
        once = once;
        opened = opened;
        gone = λ e. ground arith;
        kept = λ h. ground arith;
      })

began-IsCounted :
    (n : ℕ) (l : Life) (s : ResourceState)
    → IsCounted n l
    → begin_close l.state ≡ (true, s)
    → IsCounted n (record l { state = s; closing = suc l.closing })
unfolding begin_close
began-IsCounted n l s i e = elim (Bool-cases l.state.closed) [
  | inl is_closed ↦ absurd (cc (rw is_closed at e))
  | inr is_open ↦
      let none_yet = i.opened is_open in
      let one_left : l.state.refs ≡ l.holders + 1 =
        i.counted ∙ ap (λ c. l.holders + handle c l.closing) is_open in
      let s_is : record l.state { closed = true } ≡ s = ap (λ p. p.1) (rw is_open at e) in
      subst (λ s. IsCounted n (record l { state = s; closing = suc l.closing })) s_is
        (record {
          few = i.few;
          counted = omega (arith, one_left, none_yet);
          once = omega (arith, none_yet);
          opened = λ e. cc;
          gone = i.gone;
          kept = i.kept;
        })
]

begin_close_again : (r : ResourceState) → r.closed ≡ true → begin_close r ≡ (false, r)
unfolding begin_close
begin_close_again r e = if_true (false, r) (true, record r { closed = true }) r.closed e

again-IsCounted :
    (n : ℕ) (l : Life) (s : ResourceState)
    → IsCounted n l
    → begin_close l.state ≡ (false, s)
    → IsCounted n (record l { state = s })
unfolding begin_close
again-IsCounted n l s i e = elim (Bool-cases l.state.closed) [
  | inl is_closed ↦
      let s_is : l.state ≡ s = ap (λ p. p.1) (sym (begin_close_again l.state is_closed) ∙ e) in
      subst (λ s. IsCounted n (record l { state = s })) s_is i
  | inr is_open ↦ absurd (cc (rw is_open at e))
]

later-IsCounted : (n : ℕ) (l : Life) → IsCounted n l → IsCounted (suc n) l
later-IsCounted n l i = record {
  few = omega (arith, i.few);
  counted = i.counted;
  once = i.once;
  opened = i.opened;
  gone = i.gone;
  kept = i.kept;
}

Step-IsCounted :
    (n : ℕ) (l l' : Life) → suc n < 2 ^ 31 - 1 → IsCounted n l → Step l l' → IsCounted (suc n) l'
unfolding release_free
Step-IsCounted n l l' int i (granted _ s e) = granted-IsCounted n l s int i e
Step-IsCounted n l l' int i (refused _ s e) =
    later-IsCounted n (record l { state = s }) (refused-IsCounted n l s int i e)
Step-IsCounted n l l' int i (released _ h e) =
    later-IsCounted n (record (release_free l) { holders = h })
      (drop-IsCounted n l h l.closing int i (omega (arith, i.counted, e)) (omega (arith, i.few, e))
        (omega (arith, i.counted, e)) i.once i.opened)
Step-IsCounted n l l' int i (began _ s e) =
    later-IsCounted n (record l { state = s; closing = suc l.closing }) (began-IsCounted n l s i e)
Step-IsCounted n l l' int i (again _ s e) =
    later-IsCounted n (record l { state = s }) (again-IsCounted n l s i e)
Step-IsCounted n l l' int i (finished _ c e) = elim (Bool-cases l.state.closed) [
  | inl is_closed ↦
      let before : l.state.refs ≡ l.holders + l.closing =
        i.counted ∙ ap (λ b. l.holders + handle b l.closing) is_closed in
      let after : handle l.state.closed c ≡ c = ap (λ b. handle b c) is_closed in
      later-IsCounted n (record (release_free l) { closing = c })
        (drop-IsCounted n l l.holders c int i (omega (arith, before, e)) i.few
          (omega (arith, before, after, e)) (omega (arith, i.once, e))
          (λ o. absurd (cc (is_closed, o))))
  | inr is_open ↦ absurd (omega (arith, e, i.opened is_open))
]

pub Run-IsCounted : (n : ℕ) (l : Life) → n < 2 ^ 31 - 1 → Run n l → IsCounted n l
Run-IsCounted n l int start = start-IsCounted
Run-IsCounted _ l' int (next n l _ before s) =
    Step-IsCounted n l l' int (Run-IsCounted n l (omega (arith, int)) before) s
