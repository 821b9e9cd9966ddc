-- ===== src/Graph/Binding/Spans.antt =====
-- submit.go: `slotWrites` and `concreteSpans` know all that the nodes touch.
use accel.Base.{
  ℕ, zero, suc, ◌+◌, ◌<◌, ◌≡◌, refl, sym, ap, ◌∙◌, subst, inl, inr, Bool, true, false, ◌&&◌, ◌==◌,
  if◌then◌else◌, Option, none, some, List, [], ◌∷◌, map, get_or, get_elem?, IsIn, if_false, or_left,
  or_right, arith,
}
use accel.Buffer.{Buffer}
use accel.Graph.{Access, RangeAccess, RecNode, AccessSpan, writes, span_of, spans_of}
use accel.Graph.Binding.{Span}
use accel.Graph.Binding.Build.{
  accesses_write, slot_writes, add_concrete, concrete_of, concrete_spans, slot_writers,
}

accesses_write-IsIn :
    (id : ℕ) (accs : List RangeAccess) (a : AccessSpan)
    → IsIn a (map (span_of id) accs)
    → writes a.mode ≡ true
    → accesses_write accs a.res.slot ≡ true
unfolding accesses_write span_of
accesses_write-IsIn id [] a i w = absurd i
accesses_write-IsIn id (c ∷ rest) a (inl e) w =
    let w' : writes c.mode ≡ true = subst (λ (a : AccessSpan). writes a.mode ≡ true) e w in
    let now : (c.res.slot == c.res.slot && writes c.mode) ≡ true = rw w' (ground arith) in
    subst (λ (a : AccessSpan). accesses_write (c ∷ rest) a.res.slot ≡ true) (sym e)
      (or_left (c.res.slot == c.res.slot && writes c.mode) (accesses_write rest c.res.slot) now)
accesses_write-IsIn id (c ∷ rest) a (inr i) w =
    or_right (c.res.slot == a.res.slot && writes c.mode) (accesses_write rest a.res.slot)
      (accesses_write-IsIn id rest a i w)

-- What a node writes through a slot, the graph is known to write.
pub slot_writes-IsIn :
    (nodes : List RecNode) (i : ℕ) (n : RecNode) (a : AccessSpan)
    → get_elem? nodes i ≡ some n
    → IsIn a (spans_of n)
    → writes a.mode ≡ true
    → slot_writes nodes a.res.slot ≡ true
unfolding slot_writes spans_of
slot_writes-IsIn [] i n a e ia w = cc
slot_writes-IsIn (m ∷ ns) zero n a e ia w =
    let same : m ≡ n = cc in
    or_left (accesses_write m.accesses a.res.slot) (slot_writes ns a.res.slot) (
      subst (λ (k : RecNode). accesses_write k.accesses a.res.slot ≡ true) (sym same)
        (accesses_write-IsIn n.id n.accesses a ia w))
slot_writes-IsIn (m ∷ ns) (suc i) n a e ia w =
    or_right (accesses_write m.accesses a.res.slot) (slot_writes ns a.res.slot)
      (slot_writes-IsIn ns i n a e ia w)

pub get_or-slot_writers :
    (nodes : List RecNode) (from n s : ℕ)
    → s < n
    → get_or (slot_writers nodes from n) s false ≡ slot_writes nodes (from + s)
unfolding slot_writers
get_or-slot_writers nodes from zero s h = absurd (omega arith)
get_or-slot_writers nodes from (suc n) zero h = ap (slot_writes nodes) (omega arith)
get_or-slot_writers nodes from (suc n) (suc s) h =
    get_or-slot_writers nodes (suc from) n s (omega arith) ∙ ap (slot_writes nodes) (omega arith)

-- The span of an access that names a lasting buffer.
abbrev pub named_span : (ℕ → Buffer) → ℕ → Access → ℕ → ℕ → ℕ → Span
named_span heap id mode off size p = record {
  slot = 0;
  node = id;
  buf = p;
  lo = (heap p).at + off;
  hi = (heap p).at + off + size;
  write = writes mode;
}

add_concrete_here :
    (heap : ℕ → Buffer) (id : ℕ) (a : RangeAccess) (o : Option ℕ) (p : ℕ) (out : List Span)
    → o ≡ some p
    → (heap p).transient ≡ false
    → IsIn (named_span heap id a.mode a.off a.size p) (add_concrete heap id a o out)
unfolding add_concrete
add_concrete_here heap id a none p out e t = cc
add_concrete_here heap id a (some q) p out e t =
    let same : q ≡ p = cc in
    let own = named_span heap id a.mode a.off a.size p in
    subst (λ k. IsIn own (add_concrete heap id a (some k) out)) (sym same)
      (subst (IsIn own) (sym (if_false out (own ∷ out) (heap p).transient t)) (inl refl))

add_concrete_later :
    (heap : ℕ → Buffer) (id : ℕ) (a : RangeAccess) (o : Option ℕ) (c : Span) (out : List Span)
    → IsIn c out
    → IsIn c (add_concrete heap id a o out)
unfolding add_concrete
add_concrete_later heap id a none c out i = i
add_concrete_later heap id a (some p) c out i = later (heap p).transient
  where
    later : (t : Bool) → IsIn c (if t then out else named_span heap id a.mode a.off a.size p ∷ out)
    later true = i
    later false = inr i

concrete_of_later :
    (heap : ℕ → Buffer) (id : ℕ) (accs : List RangeAccess) (c : Span) (out : List Span)
    → IsIn c out
    → IsIn c (concrete_of heap id accs out)
unfolding concrete_of
concrete_of_later heap id [] c out i = i
concrete_of_later heap id (a ∷ rest) c out i =
    add_concrete_later heap id a a.res.buf c (concrete_of heap id rest out)
      (concrete_of_later heap id rest c out i)

concrete_of-IsIn :
    (heap : ℕ → Buffer) (id : ℕ) (accs : List RangeAccess) (out : List Span) (a : AccessSpan)
    (p : ℕ)
    → IsIn a (map (span_of id) accs)
    → a.res.buf ≡ some p
    → (heap p).transient ≡ false
    → IsIn (named_span heap id a.mode a.off a.size p) (concrete_of heap id accs out)
unfolding concrete_of span_of
concrete_of-IsIn heap id [] out a p i e t = absurd i
concrete_of-IsIn heap id (c ∷ rest) out a p (inl is) e t =
    subst
      (λ (a : AccessSpan).
        a.res.buf ≡ some p
        → IsIn (named_span heap id a.mode a.off a.size p) (concrete_of heap id (c ∷ rest) out))
      (sym is) (λ e'. add_concrete_here heap id c c.res.buf p (concrete_of heap id rest out) e' t) e
concrete_of-IsIn heap id (c ∷ rest) out a p (inr i) e t =
    add_concrete_later heap id c c.res.buf (named_span heap id a.mode a.off a.size p)
      (concrete_of heap id rest out) (concrete_of-IsIn heap id rest out a p i e t)

-- What a node touches of a lasting buffer is among the concrete spans.
pub concrete_spans-IsIn :
    (heap : ℕ → Buffer) (nodes : List RecNode) (i : ℕ) (n : RecNode) (a : AccessSpan) (p : ℕ)
    → get_elem? nodes i ≡ some n
    → IsIn a (spans_of n)
    → a.res.buf ≡ some p
    → (heap p).transient ≡ false
    → IsIn (named_span heap n.id a.mode a.off a.size p) (concrete_spans heap nodes)
unfolding concrete_spans spans_of
concrete_spans-IsIn heap [] i n a p at ia e t = cc
concrete_spans-IsIn heap (m ∷ ns) zero n a p at ia e t =
    let same : n ≡ m = cc in
    subst
      (λ (k : RecNode).
        IsIn (named_span heap n.id a.mode a.off a.size p)
          (concrete_of heap k.id k.accesses (concrete_spans heap ns)))
      same (concrete_of-IsIn heap n.id n.accesses (concrete_spans heap ns) a p ia e t)
concrete_spans-IsIn heap (m ∷ ns) (suc i) n a p at ia e t =
    concrete_of_later heap m.id m.accesses (named_span heap n.id a.mode a.off a.size p)
      (concrete_spans heap ns) (concrete_spans-IsIn heap ns i n a p at ia e t)
