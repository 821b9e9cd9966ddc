-- ===== src/VertexLayout/Accepted.antt =====
-- vertexlayout.go: what a layout that `checkVertexLayout` accepts is.
use mathlib.Core.List.{append-nil, append_assoc}
use accel.Base.{
  ℕ, ◌^◌, ◌<◌, ◌≡◌, refl, sym, ap, ◌∙◌, subst, inl, inr, false, not, ◌&&◌, Option, none, some, List,
  [], ◌∷◌, ◌++◌, ◌==◌, length, IsIn, Bool-cases, arith, ==_iff,
}
use accel.Base.Int64.{slt, not_positive}
use accel.Base.Result.{ok, ◌>>◌, fail_if, >>=-eq-ok, ok-injective}
use accel.VertexLayout.{
  components, VertexAttribute, VertexBufferLayout, StageAttribute, count_differs, width_differs,
  find_declared, check_attribute, check_attributes, check_buffers, check_width, check_stage,
  check_vertex_layout,
}
use accel.VertexLayout.Attributes.{
  passed, IsModest, Fits, found, check_attribute-Fits, Dense, Dense-append,
}

check_attributes-Fits :
    (stride : ℕ) (declared rest : List VertexAttribute) {out : List VertexAttribute}
    → ((a : VertexAttribute) → IsIn a rest → IsModest a)
    → stride < 2 ^ 63
    → check_attributes stride declared rest ≡ ok out
    → ((a : VertexAttribute) → IsIn a rest → Fits stride a)
      × Dense declared rest
      × (declared ++ rest ≡ out)
unfolding check_attributes
check_attributes-Fits stride declared [] m w e =
    ((λ a i. absurd i), _, append-nil declared ∙ ok-injective e)
check_attributes-Fits stride declared (a ∷ rest) {out} m w e =
    let (next, e1, e2) =
      >>=-eq-ok (check_attribute stride declared a) (λ d. check_attributes stride d rest) e in
    let (fits, apart, made) = check_attribute-Fits stride declared a (m a (inl refl)) w e1 in
    let e3 : check_attributes stride (declared ++ a ∷ []) rest ≡ ok out = rw made e2 in
    let (all_fit, dense, total) =
      check_attributes-Fits stride (declared ++ a ∷ []) rest (λ b i. m b (inr i)) w e3 in
    (
      λ b i. elim i [ inl p ↦ subst (Fits stride) (sym p) fits | inr q ↦ all_fit b q ],
      (apart, dense),
      sym (append_assoc declared (a ∷ []) rest) ∙ total,
    )

abbrev pub all_attributes : List VertexBufferLayout → List VertexAttribute
all_attributes [] = []
all_attributes (b ∷ bufs) = b.attributes ++ all_attributes bufs

-- Every offset of the layout is modest.
abbrev pub IsModestLayout : List VertexBufferLayout → Type 0
IsModestLayout bufs =
    (b : VertexBufferLayout)
    → IsIn b bufs
    → (a : VertexAttribute) → IsIn a b.attributes
    → IsModest a

abbrev pub AllFit : List VertexBufferLayout → Type 0
AllFit bufs =
    (b : VertexBufferLayout)
    → IsIn b bufs
    → (a : VertexAttribute) → IsIn a b.attributes
    → Fits b.stride a

below_top : (n : ℕ) → not_positive n ≡ false → n < 2 ^ 63
below_top n h = ground arith

check_buffers-AllFit :
    (declared : List VertexAttribute) (bufs : List VertexBufferLayout) {out : List VertexAttribute}
    → IsModestLayout bufs
    → check_buffers declared bufs ≡ ok out
    → AllFit bufs × Dense declared (all_attributes bufs) × (declared ++ all_attributes bufs ≡ out)
unfolding check_buffers
check_buffers-AllFit declared [] m e = ((λ b i. absurd i), _, append-nil declared ∙ ok-injective e)
check_buffers-AllFit declared (b ∷ bufs) {out} m e =
    let (positive, e1) = passed (not_positive b.stride) _ _ e in
    let (some_attributes, e2) = passed (length b.attributes == 0) _ _ e1 in
    let (next, e3, e4) =
      >>=-eq-ok (check_attributes b.stride declared b.attributes) (λ d. check_buffers d bufs) e2 in
    let (fit, dense, made) =
      check_attributes-Fits b.stride declared b.attributes (m b (inl refl))
        (below_top b.stride positive) e3 in
    let e5 : check_buffers (declared ++ b.attributes) bufs ≡ ok out = rw made e4 in
    let (all_fit, dense', total) =
      check_buffers-AllFit (declared ++ b.attributes) bufs (λ c i. m c (inr i)) e5 in
    (
      λ c i. elim i [
        | inl p ↦
            subst (λ q. (a : VertexAttribute) → IsIn a q.attributes → Fits q.stride a) (sym p) fit
        | inr q ↦ all_fit c q
      ],
      Dense-append declared b.attributes (all_attributes bufs) dense dense',
      sym (append_assoc declared b.attributes (all_attributes bufs)) ∙ total,
    )

-- A declared attribute serves the stage's, with as many components.
abbrev pub Served : List VertexAttribute → StageAttribute → Type 0
Served declared want =
    (a : VertexAttribute) × IsIn a declared
    × (a.location ≡ want.index)
    × (components a.format ≡ want.components)

check_width-Served :
    (declared : List VertexAttribute) (want : StageAttribute) (o : Option VertexAttribute)
    → find_declared declared want.index ≡ o
    → check_width o want.components ≡ ok tt
    → Served declared want
unfolding check_width
check_width-Served declared want none at e = cc
check_width-Served declared want (some got) at e =
    let (m, l) = found declared want.index got at in
    (got, m, l, equal (components got.format) want.components e)
  where
    equal : (x y : ℕ) → fail_if (not (x == y)) width_differs ≡ ok tt → x ≡ y
    equal x y e = elim (Bool-cases (x == y)) [ inl q ↦ (==_iff x y).0 q | inr n ↦ cc (rw n at e) ]

check_stage-Served :
    (declared : List VertexAttribute) (vs : List StageAttribute)
    → check_stage declared vs ≡ ok tt
    → (want : StageAttribute) → IsIn want vs
    → Served declared want
unfolding check_stage
check_stage-Served declared [] e want i = absurd i
check_stage-Served declared (v ∷ vs) e want i =
    let (u, e1, e2) =
      >>=-eq-ok (check_width (find_declared declared v.index) v.components)
        (λ _. check_stage declared vs) e in
    elim i [
      | inl p ↦
          subst (Served declared) (sym p)
            (check_width-Served declared v (find_declared declared v.index) refl e1)
      | inr m ↦ check_stage-Served declared vs e2 want m
    ]

-- Every attribute lies inside the stride of its buffer, every location is declared once, there are as
-- many as the stage has, and each of the stage's is served.
pub record IsAccepted (vs : List StageAttribute) (bufs : List VertexBufferLayout) : Type 0 where
  pub fits : AllFit bufs
  pub once : Dense [] (all_attributes bufs)
  pub counted : length (all_attributes bufs) ≡ length vs
  pub served : (want : StageAttribute) → IsIn want vs → Served (all_attributes bufs) want

-- A layout that is accepted, and has no offset within 16 bytes of the largest `int`: every attribute
-- lies inside the stride of its buffer, every location is declared once, there are as many
-- attributes as the stage reads, and each of these has one of its width at its location.
pub check_vertex_layout-IsAccepted :
    (limit : ℕ) (vs : List StageAttribute) (bufs : List VertexBufferLayout)
    → IsModestLayout bufs
    → check_vertex_layout limit vs bufs ≡ ok tt
    → IsAccepted vs bufs
unfolding check_vertex_layout
check_vertex_layout-IsAccepted limit vs bufs m e =
    let (few, e1) = passed (slt 0 limit && slt limit (length bufs)) _ _ e in
    let (declared, e2, e3) =
      >>=-eq-ok (check_buffers [] bufs)
        (λ d. fail_if (not (length d == length vs)) count_differs >> check_stage d vs) e1 in
    let (same, e4) = passed (not (length declared == length vs)) _ _ e3 in
    let (fits, once, total) = check_buffers-AllFit [] bufs m e2 in
    record {
      fits = fits;
      once = once;
      counted = ap length total ∙ equal (length declared) (length vs) same;
      served =
          subst (λ d. (want : StageAttribute) → IsIn want vs → Served d want) (sym total)
            (check_stage-Served declared vs e4);
    }
  where
    equal : (x y : ℕ) → not (x == y) ≡ false → x ≡ y
    equal x y h = ground (arith, ==_iff x y)
