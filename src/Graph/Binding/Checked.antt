-- ===== src/Graph/Binding/Checked.antt =====
-- submit.go: what `bindAll` keeps of a graph's bindings.
use accel.Base.{
  ℕ, zero, suc, ◌<◌, ◌≤◌, ◌≡◌, ◌≢◌, refl, sym, ap, ◌∙◌, subst, ◌⊎◌, inl, inr, Bool, true, false,
  not, ◌==◌, ==_iff, if◌then◌else◌, some, List, [], ◌∷◌, get_or, set, get_or-set_self,
  get_or-set_ne, length, length-set, replicate, length-replicate, lt-length_of_get_elem?, IsIn,
  arith, Bool-cases, if_true, if_false,
}
use accel.Base.Result.{ok, ok-injective, then_passed}
use accel.Buffer.{Buffer, BufferView}
use accel.Graph.{RecNode}
use accel.Graph.Binding.{
  Graph, Span, SlotDescriptor, SlotBinding, Bound, BindError, descriptor, check_bindings, latest,
  unbound, bind_views, apply_batch, bind_all, slot_span, check_overlaps,
}
use accel.Graph.Binding.Build.{built}
use accel.Graph.Binding.Overlaps.{
  IsApart, view_after, span_after, check_overlaps-slots, check_overlaps-concrete,
}
use accel.Graph.Binding.Good.{IsGood, IsGo, check_bindings-IsIn, check_binding-IsGood}

-- A slot's view after a batch is what it was, or is of a binding of the batch.
latest-IsIn :
    (us : List SlotBinding) (s : ℕ) (v : BufferView)
    → (latest us s v ≡ v)
      ⊎ ((u : SlotBinding) × IsIn u us × (u.slot ≡ s) × (latest us s v ≡ u.view))
unfolding latest
latest-IsIn [] s v = inl refl
latest-IsIn (u ∷ us) s v = elim (latest-IsIn us s (if u.slot == s then u.view else v)) [
  | inr (w, i, e, is) ↦ inr (w, inr i, e, is)
  | inl kept ↦ elim (Bool-cases (u.slot == s)) [
    | inl same ↦
        inr (u, inl refl, (==_iff u.slot s).0 same, kept ∙ if_true u.view v (u.slot == s) same)
    | inr other ↦ inl (kept ∙ if_false u.view v (u.slot == s) other)
  ]
]

-- The stored views are those that the overlap check looked at.
length-bind_views :
    (us : List SlotBinding) (bound : List BufferView) → length (bind_views us bound) ≡ length bound
unfolding bind_views
length-bind_views [] bound = refl
length-bind_views (u ∷ us) bound =
    length-bind_views us (set bound u.slot u.view) ∙ length-set bound u.slot u.view

get_or-bind_views :
    (us : List SlotBinding) (bound : List BufferView) (s : ℕ)
    → s < length bound
    → get_or (bind_views us bound) s unbound ≡ latest us s (get_or bound s unbound)
unfolding bind_views latest
get_or-bind_views [] bound s h = refl
get_or-bind_views (u ∷ us) bound s h =
    get_or-bind_views us (set bound u.slot u.view) s
      (omega (arith, h, length-set bound u.slot u.view))
    ∙ ap (latest us s) (stored (Bool-cases (u.slot == s)))
  where
    stored :
        ((u.slot == s) ≡ true) ⊎ ((u.slot == s) ≡ false)
        → get_or (set bound u.slot u.view) s unbound
          ≡ (if u.slot == s then u.view else get_or bound s unbound)
    stored (inl same) =
        let e = (==_iff u.slot s).0 same in
        subst (λ k. get_or (set bound k u.view) s unbound ≡ u.view) (sym e)
          (get_or-set_self bound s u.view unbound h)
        ∙ sym (if_true u.view (get_or bound s unbound) (u.slot == s) same)
    stored (inr other) =
        let ne : u.slot ≢ s = λ e. cc ((==_iff u.slot s).1 e, other) in
        get_or-set_ne bound u.slot s u.view unbound ne
        ∙ sym (if_false u.view (get_or bound s unbound) (u.slot == s) other)

-- A slot's view in a graph, and the span that it names.
abbrev pub view_at : Graph → ℕ → BufferView
view_at g s = get_or g.bound s unbound

abbrev pub span_at : Graph → (ℕ → Buffer) → ℕ → ℕ → Span
span_at g heap s p = slot_span heap s (get_or g.slot_writer s false) (view_at g s) p

-- A graph's slots hold good views, and where one of two writes, no two slots share a byte, and no
-- slot shares one with what the graph names itself.
pub record IsValid (g : Graph) (heap : ℕ → Buffer) : Type 0 where
  pub size : length g.bound ≡ suc (length g.slots)
  pub good :
      (s p : ℕ) (d : SlotDescriptor)
      → descriptor g.slots s ≡ some d
      → (view_at g s).buffer ≡ some p
      → IsGood g.device heap d (view_at g s) p
  pub slots :
      (s t p q : ℕ)
      → 1 ≤ s
      → s ≤ length g.slots
      → 1 ≤ t
      → t ≤ length g.slots
      → s ≢ t
      → (view_at g s).buffer ≡ some p
      → (view_at g t).buffer ≡ some q
      → IsApart (span_at g heap s p) (span_at g heap t q)
  pub concretes :
      (s p : ℕ) (c : Span)
      → 1 ≤ s
      → s ≤ length g.slots
      → (view_at g s).buffer ≡ some p
      → IsIn c g.concrete
      → IsApart (span_at g heap s p) c

-- A descriptor is of a slot that the graph has.
pub descriptor-le :
    (slots : List SlotDescriptor) (s : ℕ) {d : SlotDescriptor}
    → descriptor slots s ≡ some d
    → (1 ≤ s) × (s ≤ length slots)
unfolding descriptor
descriptor-le slots zero e = cc
descriptor-le slots (suc s) e =
    let lt = lt-length_of_get_elem? slots s e in (omega arith, omega (arith, lt))

module _ (g : Graph) (heap : ℕ → Buffer) (bs : List SlotBinding) (go : IsGo heap g.slots bs)
    (valid : IsValid g heap) (checked : (check_bindings g heap bs).1 ≡ [])
    (overlaps : check_overlaps g heap bs ≡ false) where
  abbrev next_graph : Graph
  next_graph = record g { bound = bind_views bs g.bound }

  next_view : (s : ℕ) → s ≤ length g.slots → view_at next_graph s ≡ view_after g bs s
  next_view s h = get_or-bind_views bs g.bound s (omega (arith, h, valid.size))

  next-IsGood :
      (s p : ℕ) (d : SlotDescriptor)
      → descriptor g.slots s ≡ some d
      → (view_after g bs s).buffer ≡ some p
      → IsGood g.device heap d (view_after g bs s) p
  next-IsGood s p d ed ep = elim (latest-IsIn bs s (view_at g s)) [
    | inl kept ↦
        subst (λ v. IsGood g.device heap d v p) (sym kept)
          (valid.good s p d ed (ap (λ v. v.buffer) (sym kept) ∙ ep))
    | inr (u, i, at, is) ↦
        let (x, made) = check_bindings-IsIn g heap bs u checked i in
        subst (λ v. IsGood g.device heap d v p) (sym is)
          (check_binding-IsGood g heap u d p (go.bytes p) (go.counts s d ed) (go.offset u i)
            (go.count u i) (ap (descriptor g.slots) at ∙ ed) (ap (λ v. v.buffer) (sym is) ∙ ep)
            made)
  ]

  next-IsValid : IsValid next_graph heap
  next-IsValid = record {
    size = length-bind_views bs g.bound ∙ valid.size;
    good = λ s p d ed ep.
        let same = next_view s (descriptor-le g.slots s ed).1 in
        subst (λ v. IsGood g.device heap d v p) (sym same)
          (next-IsGood s p d ed (ap (λ v. v.buffer) (sym same) ∙ ep));
    slots = λ s t p q s1 sn t1 tn ne es et.
        let same_s = next_view s sn in
        let same_t = next_view t tn in
        subst
          (λ v.
            IsApart (slot_span heap s (get_or g.slot_writer s false) v p)
              (span_at next_graph heap t q))
          (sym same_s)
          (subst
            (λ v.
              IsApart (span_after g heap bs s p)
                (slot_span heap t (get_or g.slot_writer t false) v q))
            (sym same_t)
            (check_overlaps-slots g heap bs s t p q overlaps s1 sn t1 tn ne
              (ap (λ v. v.buffer) (sym same_s) ∙ es) (ap (λ v. v.buffer) (sym same_t) ∙ et)));
    concretes = λ s p c s1 sn es i.
        let same = next_view s sn in
        subst (λ v. IsApart (slot_span heap s (get_or g.slot_writer s false) v p) c) (sym same)
          (check_overlaps-concrete g heap bs s p c overlaps s1 sn
            (ap (λ v. v.buffer) (sym same) ∙ es) i);
  }

apply_batch-IsValid :
    (g : Graph) (heap : ℕ → Buffer) (lost : Bool) (rebind : List Bound → Bool)
    (bs : List SlotBinding) (r : List Bound × List BindError) {g' : Graph}
    → IsGo heap g.slots bs
    → IsValid g heap
    → check_bindings g heap bs ≡ r
    → apply_batch g heap lost rebind bs r ≡ ok g'
    → IsValid g' heap
unfolding apply_batch
apply_batch-IsValid g heap lost rebind bs (staged, e ∷ errs) go valid checked h = cc
apply_batch-IsValid g heap lost rebind bs (staged, []) go valid checked h =
    let (c1, e1) = then_passed g.in_flight _ _ h in
    let (c2, e2) = then_passed (check_overlaps g heap bs) _ _ e1 in
    let (c3, e3) = then_passed (not (rebind staged)) _ _ e2 in
    subst (λ k. IsValid k heap) (ok-injective e3)
      (next-IsValid g heap bs go valid (ap (λ r. r.1) checked) c2)

-- A batch that `bindAll` takes leaves the graph's bindings valid: every slot that is bound has a view
-- of its type with the elements that the nodes need, inside a buffer of the device that is no
-- transient, and no two slots share a byte that one of the two writes anywhere in the graph, nor does
-- a slot with a range that the graph names itself.
pub bind_all-IsValid :
    (g : Graph) (heap : ℕ → Buffer) (lost : Bool) (rebind : List Bound → Bool)
    (bs : List SlotBinding) {g' : Graph}
    → IsGo heap g.slots bs
    → IsValid g heap
    → bind_all g heap lost rebind bs ≡ ok g'
    → IsValid g' heap
unfolding bind_all
bind_all-IsValid g heap lost rebind bs go valid e =
    let (c1, e1) = then_passed g.closed _ _ e in
    let (c2, e2) = then_passed lost _ _ e1 in
    apply_batch-IsValid g heap lost rebind bs (check_bindings g heap bs) go valid refl e2

get_or-replicate : (n s : ℕ) → get_or (replicate n unbound) s unbound ≡ unbound
get_or-replicate zero s = refl
get_or-replicate (suc n) zero = refl
get_or-replicate (suc n) (suc s) = get_or-replicate n s

-- A graph that was just built has nothing bound.
pub built-IsValid :
    (device : ℕ) (heap : ℕ → Buffer) (slots : List SlotDescriptor) (nodes : List RecNode)
    → IsValid (built device heap slots nodes) heap
unfolding built
built-IsValid device heap slots nodes =
    let empty : (s p : ℕ) → (view_at (built device heap slots nodes) s).buffer ≡ some p → ⊥ =
      λ s p e.
        cc (ap (λ (v : BufferView). v.buffer) (get_or-replicate (suc (length slots)) s), e) in
    record {
      size = length-replicate (suc (length slots)) unbound;
      good = λ s p d ed e. absurd (empty s p e);
      slots = λ s t p q s1 sn t1 tn ne e f. absurd (empty s p e);
      concretes = λ s p c s1 sn e i. absurd (empty s p e);
    }
