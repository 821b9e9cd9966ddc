-- ===== src/Graph/Binding/Overlaps.antt =====
-- submit.go: what the overlap check leaves apart.
use native.Mathlib.Decide.{ℕ_discrete}
use accel.Base.{
  ℕ, zero, suc, ◌+◌, ◌<◌, ◌≤◌, ◌≡◌, ◌≢◌, refl, sym, ap, ◌∙◌, subst, ◌⊎◌, inl, inr, Bool, true,
  false, ◌||◌, ==_iff, Option, none, some, List, [], ◌∷◌, get_or, length, IsIn, arith, neither,
}
use accel.Buffer.{Buffer, BufferView}
use accel.Graph.Binding.{
  Graph, Span, SlotBinding, latest, unbound, slot_span, add_span, slot_spans, conflict, conflicts,
  any_conflict, check_overlaps,
}

-- Spans of one buffer, of which one writes, share no byte.
abbrev pub IsApart : Span → Span → Type 0
IsApart a b = a.buf ≡ b.buf → (a.write || b.write) ≡ true → (a.hi ≤ b.lo) ⊎ (b.hi ≤ a.lo)

conflict-IsApart : (a b : Span) → conflict a b ≡ false → IsApart a b
unfolding conflict
conflict-IsApart a b e same one_writes = ground (arith, ==_iff a.buf b.buf)

conflicts-IsApart :
    (a : Span) (bs : List Span) (b : Span) → conflicts a bs ≡ false → IsIn b bs → IsApart a b
unfolding conflicts
conflicts-IsApart a [] b e i = absurd i
conflicts-IsApart a (c ∷ cs) b e (inl same) =
    subst (IsApart a) (sym same) (conflict-IsApart a c (neither (conflict a c) _ e).0)
conflicts-IsApart a (c ∷ cs) b e (inr i) = conflicts-IsApart a cs b (neither (conflict a c) _ e).1 i

IsApart-sym : (a b : Span) → IsApart a b → IsApart b a
IsApart-sym a b h same one_writes = elim (h (sym same) (either a.write b.write one_writes)) [
  | inl p ↦ inr p
  | inr q ↦ inl q
]
  where
    either : (x y : Bool) → (y || x) ≡ true → (x || y) ≡ true
    either true y e = refl
    either false true e = refl
    either false false e = cc

-- Of spans without a conflict, two of different slots are apart, and each is from every concrete one.
any_conflict-IsApart :
    (spans concrete : List Span) (a b : Span)
    → any_conflict spans concrete ≡ false
    → IsIn a spans
    → IsIn b spans
    → a.slot ≢ b.slot
    → IsApart a b
unfolding any_conflict
any_conflict-IsApart [] concrete a b e ia ib ne = absurd ia
any_conflict-IsApart (c ∷ cs) concrete a b e ia ib ne =
    let (now, after) = neither (conflicts c cs || conflicts c concrete) _ e in
    let (with_rest, with_concrete) = neither (conflicts c cs) _ now in
    elim ia [
      | inl a_is ↦ elim ib [
        | inl b_is ↦ absurd (ne (ap (λ s. s.slot) (a_is ∙ sym b_is)))
        | inr jb ↦ subst (λ s. IsApart s b) (sym a_is) (conflicts-IsApart c cs b with_rest jb)
      ]
      | inr ja ↦ elim ib [
        | inl b_is ↦
            subst (IsApart a) (sym b_is) (IsApart-sym c a (conflicts-IsApart c cs a with_rest ja))
        | inr jb ↦ any_conflict-IsApart cs concrete a b after ja jb ne
      ]
    ]

any_conflict-concrete :
    (spans concrete : List Span) (a c : Span)
    → any_conflict spans concrete ≡ false
    → IsIn a spans
    → IsIn c concrete
    → IsApart a c
unfolding any_conflict
any_conflict-concrete [] concrete a c e ia ic = absurd ia
any_conflict-concrete (s ∷ rest) concrete a c e ia ic =
    let (now, after) = neither (conflicts s rest || conflicts s concrete) _ e in
    let (with_rest, with_concrete) = neither (conflicts s rest) _ now in
    elim ia [
      | inl a_is ↦
          subst (λ s. IsApart s c) (sym a_is) (conflicts-IsApart s concrete c with_concrete ic)
      | inr ja ↦ any_conflict-concrete rest concrete a c after ja ic
    ]

add_span_here :
    (heap : ℕ → Buffer) (s : ℕ) (w : Bool) (v : BufferView) (o : Option ℕ) (p : ℕ)
    (spans : List Span)
    → o ≡ some p
    → IsIn (slot_span heap s w v p) (add_span heap s w v o spans)
unfolding add_span
add_span_here heap s w v none p spans e = cc
add_span_here heap s w v (some q) p spans e =
    let same : q ≡ p = cc in inl (ap (slot_span heap s w v) (sym same))

add_span_later :
    (heap : ℕ → Buffer) (s : ℕ) (w : Bool) (v : BufferView) (o : Option ℕ) (a : Span)
    (spans : List Span)
    → IsIn a spans
    → IsIn a (add_span heap s w v o spans)
unfolding add_span
add_span_later heap s w v none a spans i = i
add_span_later heap s w v (some q) a spans i = inr i

-- A slot's view with a batch applied, and its span.
abbrev pub view_after : Graph → List SlotBinding → ℕ → BufferView
view_after g us s = latest us s (get_or g.bound s unbound)

abbrev pub span_after : Graph → (ℕ → Buffer) → List SlotBinding → ℕ → ℕ → Span
span_after g heap us s p = slot_span heap s (get_or g.slot_writer s false) (view_after g us s) p

-- The span of a slot whose view names a buffer is among those that are compared.
slot_spans-IsIn :
    (g : Graph) (heap : ℕ → Buffer) (us : List SlotBinding) (from n s p : ℕ)
    → from ≤ s
    → s < from + n
    → (view_after g us s).buffer ≡ some p
    → IsIn (span_after g heap us s p) (slot_spans g heap us from n)
unfolding slot_spans
slot_spans-IsIn g heap us from zero s p lo hi e = absurd (omega (arith, lo, hi))
slot_spans-IsIn g heap us from (suc n) s p lo hi e = elim (ℕ_discrete from s) [
  | yes same ↦
      subst
        (λ k.
          (view_after g us k).buffer ≡ some p
          → IsIn (span_after g heap us k p) (slot_spans g heap us from (suc n)))
        same
        (add_span_here heap from (get_or g.slot_writer from false) (view_after g us from)
          (view_after g us from).buffer p (slot_spans g heap us (suc from) n))
        e
  | no other ↦
      add_span_later heap from (get_or g.slot_writer from false) (view_after g us from)
        (view_after g us from).buffer (span_after g heap us s p) (slot_spans g heap us (suc from) n)
        (slot_spans-IsIn g heap us (suc from) n s p (omega (arith, lo, other)) (omega (arith, hi))
          e)
]

-- Where the overlap check passes, the spans of two slots are apart, and a slot's from concrete ones.
pub check_overlaps-slots :
    (g : Graph) (heap : ℕ → Buffer) (us : List SlotBinding) (s t p q : ℕ)
    → check_overlaps g heap us ≡ false
    → 1 ≤ s
    → s ≤ length g.slots
    → 1 ≤ t
    → t ≤ length g.slots
    → s ≢ t
    → (view_after g us s).buffer ≡ some p
    → (view_after g us t).buffer ≡ some q
    → IsApart (span_after g heap us s p) (span_after g heap us t q)
unfolding check_overlaps slot_span
check_overlaps-slots g heap us s t p q e s1 sn t1 tn ne vs vt =
    let n = length g.slots in
    any_conflict-IsApart (slot_spans g heap us 1 n) g.concrete (span_after g heap us s p)
      (span_after g heap us t q) e (slot_spans-IsIn g heap us 1 n s p s1 (omega (arith, sn)) vs)
      (slot_spans-IsIn g heap us 1 n t q t1 (omega (arith, tn)) vt) ne

pub check_overlaps-concrete :
    (g : Graph) (heap : ℕ → Buffer) (us : List SlotBinding) (s p : ℕ) (c : Span)
    → check_overlaps g heap us ≡ false
    → 1 ≤ s
    → s ≤ length g.slots
    → (view_after g us s).buffer ≡ some p
    → IsIn c g.concrete
    → IsApart (span_after g heap us s p) c
unfolding check_overlaps
check_overlaps-concrete g heap us s p c e s1 sn vs i =
    let n = length g.slots in
    any_conflict-concrete (slot_spans g heap us 1 n) g.concrete (span_after g heap us s p) c e
      (slot_spans-IsIn g heap us 1 n s p s1 (omega (arith, sn)) vs) i
