-- ===== src/VertexLayout/Tests.antt =====
-- vertexlayout.go: an interleaved buffer, one with instance data, and an offset that wraps.
use accel.Base.{ℕ, ◌^◌, ◌-◌, ◌≡◌, refl, inl, inr, List, [], ◌∷◌, arith, subst, sym, IsIn}
use accel.Base.Result.{ok, err}
use accel.VertexLayout.{
  AttrFormat, attr_float32x3, attr_snorm8x4, attr_float32x4, attr_table, components, size,
  step_vertex, step_instance, VertexAttribute, VertexBufferLayout, StageAttribute, find_declared,
  check_attribute, check_attributes, check_buffers, check_width, check_stage, check_vertex_layout,
  declared_twice,
}
use accel.VertexLayout.Accepted.{IsModestLayout, IsAccepted, check_vertex_layout-IsAccepted}
use accel.VertexLayout.Attributes.{IsModest}

abbrev attribute : ℕ → AttrFormat → ℕ → VertexAttribute
attribute l f o = record { location = l; format = f; offset = o }

abbrev geometry : VertexBufferLayout
geometry = record {
  stride = 16;
  step_mode = step_vertex;
  attributes = attribute 0 attr_float32x3 0 ∷ attribute 1 attr_snorm8x4 12 ∷ [];
}

abbrev transform : VertexBufferLayout
transform = record {
  stride = 32;
  step_mode = step_instance;
  attributes = attribute 2 attr_float32x4 16 ∷ [];
}

abbrev stage_attributes : List StageAttribute
stage_attributes =
    record { name = "position"; index = 0; components = 3 }
    ∷ record { name = "normal"; index = 1; components = 4 }
    ∷ record { name = "row"; index = 2; components = 4 }
    ∷ []

accepted : check_vertex_layout 8 stage_attributes (geometry ∷ transform ∷ []) ≡ ok tt
unfolding check_vertex_layout check_buffers check_attributes check_attribute check_stage check_width
    find_declared components size attr_table
accepted = refl

twice : check_vertex_layout 8 stage_attributes (geometry ∷ geometry ∷ []) ≡ err declared_twice
unfolding check_vertex_layout check_buffers check_attributes check_attribute check_stage check_width
    find_declared components size attr_table
twice = refl

-- The end of such an attribute is negative, so that it is not beyond the stride.
wrapped :
    check_vertex_layout 8 (record { name = "row"; index = 0; components = 4 } ∷ []) (
      record {
        stride = 16;
        step_mode = step_vertex;
        attributes = attribute 0 attr_float32x4 (2 ^ 63 - 16) ∷ [];
      }
      ∷ [])
    ≡ ok tt
unfolding check_vertex_layout check_buffers check_attributes check_attribute check_stage check_width
    find_declared components size attr_table
wrapped = refl

modest : IsModestLayout (geometry ∷ transform ∷ [])
modest b (inl e) a i = elim (subst (λ q. IsIn a q.attributes) e i) [
  | inl p ↦ subst IsModest (sym p) (inl (omega arith))
  | inr (inl p) ↦ subst IsModest (sym p) (inl (omega arith))
  | inr (inr void) ↦ absurd void
]
modest b (inr (inl e)) a i = elim (subst (λ q. IsIn a q.attributes) e i) [
  | inl p ↦ subst IsModest (sym p) (inl (omega arith))
  | inr void ↦ absurd void
]
modest b (inr (inr void)) a i = absurd void

check_vertex_layout-IsAccepted_example : IsAccepted stage_attributes (geometry ∷ transform ∷ [])
check_vertex_layout-IsAccepted_example =
    check_vertex_layout-IsAccepted 8 stage_attributes (geometry ∷ transform ∷ []) modest accepted
