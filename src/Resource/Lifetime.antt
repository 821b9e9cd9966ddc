-- ===== src/Resource/Lifetime.antt =====
-- resource.go: memory is freed once, when the resource is closed and no hold is left.
use native.Mathlib.Decide.{ℕ_discrete}
use accel.Base.{
  ℕ, zero, suc, ◌+◌, ◌-◌, ◌^◌, ◌<◌, ◌≤◌, ◌≡◌, ◌↔◌, refl, ap, ◌∙◌, subst, true, false, arith,
  Bool-cases, inl, inr,
}
use accel.Resource.{retain, release, Life, release_free, released, Run, next, drain}
use accel.Resource.Counted.{handle, IsCounted, retain_freed, Run-IsCounted}

-- The memory is freed at most once, and then nothing retains it: when the handle is closed, its
-- `Close` is done and no holder is left.
pub record IsFreedOnce (l : Life) : Type 0 where
  pub once : l.freed ≤ 1
  pub exactly : (l.freed ≡ 1) ↔ ((l.state.closed ≡ true) × (l.closing ≡ 0) × (l.holders ≡ 0))
  pub refuses : l.freed ≡ 1 → retain l.state ≡ (false, l.state)

counted-IsFreedOnce : (n : ℕ) (l : Life) → IsCounted n l → IsFreedOnce l
counted-IsFreedOnce n l i = elim (ℕ_discrete l.state.refs 0) [
  | yes none_left ↦ record {
    once = omega (arith, i.gone none_left);
    exactly = (λ e. all_gone none_left, λ h. i.gone none_left);
    refuses = λ e. retain_freed l.state none_left;
  }
  | no live ↦
      let pos : 0 < l.state.refs = omega (arith, live) in
      let fresh = i.kept pos in
      record {
        once = omega (arith, fresh);
        exactly =
            (λ e. absurd (omega (arith, fresh, e)), λ (c, k, h). absurd (live (unheld c k h)));
        refuses = λ e. absurd (omega (arith, fresh, e));
      }
]
  where
    unheld : l.state.closed ≡ true → l.closing ≡ 0 → l.holders ≡ 0 → l.state.refs ≡ 0
    unheld c k h =
        let count : l.state.refs ≡ l.holders + l.closing =
          i.counted ∙ ap (λ b. l.holders + handle b l.closing) c in
        omega (arith, count, k, h)

    all_gone : l.state.refs ≡ 0 → (l.state.closed ≡ true) × (l.closing ≡ 0) × (l.holders ≡ 0)
    all_gone e = elim (Bool-cases l.state.closed) [
      | inl c ↦
          let count : l.state.refs ≡ l.holders + l.closing =
            i.counted ∙ ap (λ b. l.holders + handle b l.closing) c in
          (c, omega (arith, count, e), omega (arith, count, e))
      | inr o ↦
          let count : l.state.refs ≡ l.holders + 1 =
            i.counted ∙ ap (λ b. l.holders + handle b l.closing) o in
          absurd (omega (arith, count, e))
    ]

-- After any calls of which no more than an `int32` counts, in any order and with the two steps of
-- every `Close` between others, the memory is freed at most once, exactly when the resource is closed,
-- the `Close` is done and no holder is left, and from then on every retain is refused.
pub Run-IsFreedOnce : (n : ℕ) (l : Life) → n < 2 ^ 31 - 1 → Run n l → IsFreedOnce l
Run-IsFreedOnce n l int run = counted-IsFreedOnce n l (Run-IsCounted n l int run)

drain-Run : (h n : ℕ) (l : Life) → l.holders ≡ h → Run n l → Run (h + n) (drain h l)
unfolding drain
drain-Run zero n l e run = subst (λ k. Run k l) (omega arith) run
drain-Run (suc h) n l e run =
    let l' : Life = record (release_free l) { holders = h } in
    subst (λ k. Run k (drain h l')) (omega arith)
      (drain-Run h (suc n) l' refl (next n l l' run (released l h e)))

-- What the holders' releases leave of the rest.
drain_lem :
    (h : ℕ) (l : Life)
    → l.holders ≡ h
    → ((drain h l).state.closed ≡ l.state.closed)
      × ((drain h l).closing ≡ l.closing)
      × ((drain h l).holders ≡ 0)
unfolding drain release_free release
drain_lem zero l e = (refl, refl, e)
drain_lem (suc h) l e = drain_lem h (record (release_free l) { holders = h }) refl

-- Once a resource is closed, the releases of those that still hold it free its memory.
pub drain-freed :
    (n : ℕ) (l : Life)
    → l.holders + n < 2 ^ 31 - 1
    → Run n l
    → l.state.closed ≡ true
    → l.closing ≡ 0
    → (drain l.holders l).freed ≡ 1
drain-freed n l int run c k =
    let (same_closed, same_closing, none_left) = drain_lem l.holders l refl in
    let once =
      Run-IsFreedOnce (l.holders + n) (drain l.holders l) int (drain-Run l.holders n l refl run) in
    once.exactly.1 (same_closed ∙ c, same_closing ∙ k, none_left)
