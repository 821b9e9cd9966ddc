-- ===== src/TextureView/View/Families.antt =====
-- textureview.go: which formats a view may reinterpret as which.
use mathlib.Core.Logic.{ite, if_pos, if_neg}
use accel.Base.{
  ℕ, ◌<◌, ◌^◌, ◌≡◌, refl, sym, ap, ◌∙◌, subst, inl, inr, ◌⊎◌, max, Bool, true, false, not, ◌&&◌,
  ◌||◌, Option, none, some, ◌==◌, ==_iff, List, [], ◌∷◌, IsIn, if◌then◌else◌, arith,
}
use accel.Base.Result.{Result, ok, err, ok-injective}
use accel.Format.{
  Format, format_invalid, rgba8_unorm, rgba8_unorm_srgb, bgra8_unorm, r16_float, rg16_float,
  rgba16_float, r32_float, rg32_float, rgba32_float, depth32_float, depth24_plus_stencil8,
  depth32_float_stencil8, Format-discrete, format_table, entry, Device, format_info,
  bytes_per_pixel, stencil_plane_pitch, planar, aligned_row_pitch,
}
use accel.TextureView.{Texture, level_pitch}
use accel.TextureView.View.{
  ViewError, View, differs, incompatible, out_of_range, reinterpreted, view,
}

abbrev all_formats : List Format
all_formats =
    format_invalid ∷ rgba8_unorm ∷ rgba8_unorm_srgb ∷ bgra8_unorm ∷ r16_float ∷ rg16_float
    ∷ rgba16_float ∷ r32_float ∷ rg32_float ∷ rgba32_float ∷ depth32_float ∷ depth24_plus_stencil8
    ∷ depth32_float_stencil8 ∷ []

-- A place in that list.
abbrev place : (f : Format) → IsIn f all_formats
place format_invalid = inl refl
place rgba8_unorm = inr (inl refl)
place rgba8_unorm_srgb = inr (inr (inl refl))
place bgra8_unorm = inr (inr (inr (inl refl)))
place r16_float = inr (inr (inr (inr (inl refl))))
place rg16_float = inr (inr (inr (inr (inr (inl refl)))))
place rgba16_float = inr (inr (inr (inr (inr (inr (inl refl))))))
place r32_float = inr (inr (inr (inr (inr (inr (inr (inl refl)))))))
place rg32_float = inr (inr (inr (inr (inr (inr (inr (inr (inl refl))))))))
place rgba32_float = inr (inr (inr (inr (inr (inr (inr (inr (inr (inl refl)))))))))
place depth32_float = inr (inr (inr (inr (inr (inr (inr (inr (inr (inr (inl refl))))))))))
place depth24_plus_stencil8 =
    inr (inr (inr (inr (inr (inr (inr (inr (inr (inr (inr (inl refl)))))))))))
place depth32_float_stencil8 =
    inr (inr (inr (inr (inr (inr (inr (inr (inr (inr (inr (inr (inl refl))))))))))))

abbrev all_of : (Format → Bool) → List Format → Bool
all_of p [] = true
all_of p (f ∷ fs) = p f && all_of p fs

all_of-IsIn :
    (p : Format → Bool) (fs : List Format) (f : Format)
    → all_of p fs ≡ true
    → IsIn f fs
    → p f ≡ true
all_of-IsIn p [] f h i = absurd i
all_of-IsIn p (g ∷ fs) f h (inl e) = ap p e ∙ head (p g) (all_of p fs) h
  where
    head : (a b : Bool) → (a && b) ≡ true → a ≡ true
    head a b h = ground arith
all_of-IsIn p (g ∷ fs) f h (inr m) = all_of-IsIn p fs f (tail (p g) (all_of p fs) h) m
  where
    tail : (a b : Bool) → (a && b) ≡ true → b ≡ true
    tail a b h = ground arith

-- The pairs of formats that the code accepts, listed by hand: four channels of eight bits, one of the
-- formats being the sRGB one. The order of the channels is not compared, so that BGRA is among them;
-- the comment in textureview.go names the RGBA pair only.
abbrev pub is_srgb_pair : Format → Format → Bool
is_srgb_pair rgba8_unorm rgba8_unorm_srgb = true
is_srgb_pair bgra8_unorm rgba8_unorm_srgb = true
is_srgb_pair rgba8_unorm_srgb rgba8_unorm = true
is_srgb_pair rgba8_unorm_srgb bgra8_unorm = true
is_srgb_pair f g = false

abbrev pub is_none : {A : Type 0} → Option A → Bool
is_none none = true
is_none (some a) = false

-- The answers of `incompatible`: a format of known size as itself, or the other of a listed pair.
abbrev pub may_read : Format → Format → Bool
may_read f g =
    ite (Format-discrete f g) (not (is_none (format_table f)) && sized f) (is_srgb_pair f g)
  where
    sized : Format → Bool
    sized depth24_plus_stencil8 = false
    sized f = true

same : Bool → Bool → Bool
same a b = not (differs a b)

same-eq : (a b : Bool) → same a b ≡ true → a ≡ b
unfolding same
same-eq a b h = ground arith

module _ (d : Device) where
  incompatible_table :
      all_of
        (λ f. all_of (λ g. same (is_none (incompatible d f g)) (may_read f g)) all_formats)
        all_formats
      ≡ true
  unfolding same incompatible format_info format_table Format-discrete
  incompatible_table = refl

  -- The check gives the listed answers on every device.
  incompatible_decides : (f g : Format) → is_none (incompatible d f g) ≡ may_read f g
  incompatible_decides f g = same-eq _ _ (
      all_of-IsIn (λ g. same (is_none (incompatible d f g)) (may_read f g)) all_formats g
        (all_of-IsIn
          (λ f. all_of (λ g. same (is_none (incompatible d f g)) (may_read f g)) all_formats)
          all_formats f incompatible_table (place f))
        (place g))

-- Formats that may be read as one another have one size, and planes alike.
abbrev alike : Format → Format → Bool
alike f g = (bytes_per_pixel f == bytes_per_pixel g) && same (planar f) (planar g)

alike_table :
    all_of (λ f. all_of (λ g. not (may_read f g) || alike f g) all_formats) all_formats ≡ true
unfolding same bytes_per_pixel planar entry format_table Format-discrete
alike_table = refl

may_read-alike :
    (f g : Format)
    → may_read f g ≡ true
    → (bytes_per_pixel f ≡ bytes_per_pixel g) × (planar f ≡ planar g)
may_read-alike f g h =
    let row =
      all_of-IsIn (λ f. all_of (λ g. not (may_read f g) || alike f g) all_formats) all_formats f
        alike_table (place f) in
    let at = all_of-IsIn (λ g. not (may_read f g) || alike f g) all_formats g row (place g) in
    parts (may_read f g) (bytes_per_pixel f) (bytes_per_pixel g) (planar f) (planar g) h at
  where
    parts :
        (m : Bool) (x y : ℕ) (p q : Bool)
        → m ≡ true
        → (not m || ((x == y) && same p q)) ≡ true
        → (x ≡ y) × (p ≡ q)
    parts m x y p q e h = ground (arith, ==_iff x y, same-eq p q)

-- A view's subresource lies inside the texture, and has the bytes that the texture has there.
pub record IsView (d : Device) (t : Texture) (v w : View) : Type 0 where
  pub mip : w.mip ≡ v.mip
  pub layer : w.layer ≡ v.layer
  pub inside : (w.mip < max t.mip_levels 1) × (w.layer < max t.array_layers 1)
  pub readable : (w.format ≡ t.format) ⊎ (may_read t.format w.format ≡ true)
  pub pitch : (x : ℕ) → level_pitch d w.format x ≡ level_pitch d t.format x
  pub stencil : (x : ℕ) → stencil_plane_pitch d w.format x ≡ stencil_plane_pitch d t.format x

same_pitch :
    (d : Device) (f g : Format) (x : ℕ)
    → bytes_per_pixel f ≡ bytes_per_pixel g
    → level_pitch d g x ≡ level_pitch d f x
unfolding level_pitch aligned_row_pitch
same_pitch d f g x e = rw e refl

same_stencil :
    (d : Device) (f g : Format) (x : ℕ)
    → planar f ≡ planar g
    → stencil_plane_pitch d g x ≡ stencil_plane_pitch d f x
unfolding stencil_plane_pitch
same_stencil d f g x e = rw e refl

in_range : (i n : ℕ) → n < 2 ^ 63 → i < 2 ^ 64 → out_of_range i n ≡ false → i < n
in_range i n s w h = ground arith

not_refused :
    (c : Bool) (why : ViewError) (k : Result ViewError View) {w : View}
    → (if c then err why else k) ≡ ok w
    → (c ≡ false) × (k ≡ ok w)
not_refused true why k e = cc
not_refused false why k e = (refl, e)

-- The fields that a view of its own format has.
own-IsView :
    (d : Device) (t : Texture) (v w : View)
    → v.mip < max t.mip_levels 1
    → v.layer < max t.array_layers 1
    → record v { format = t.format } ≡ w
    → IsView d t v w
own-IsView d t v w hm hl e = subst (IsView d t v) e (record {
  mip = refl;
  layer = refl;
  inside = (hm, hl);
  readable = inl refl;
  pitch = λ x. refl;
  stencil = λ x. refl;
})

other-IsView :
    (d : Device) (t : Texture) (v w : View) (o : Option ViewError)
    → v.mip < max t.mip_levels 1
    → v.layer < max t.array_layers 1
    → incompatible d t.format v.format ≡ o
    → reinterpreted d t v o ≡ ok w
    → IsView d t v w
unfolding reinterpreted
other-IsView d t v w (some why) hm hl at e = cc
other-IsView d t v w none hm hl at e =
    let may = sym (incompatible_decides d t.format v.format) ∙ ap is_none at in
    let (bytes, planes) = may_read-alike t.format v.format may in
    subst (IsView d t v) (ok-injective e) (record {
      mip = refl;
      layer = refl;
      inside = (hm, hl);
      readable = inr may;
      pitch = λ x. same_pitch d t.format v.format x bytes;
      stencil = λ x. same_stencil d t.format v.format x planes;
    })

-- A view that is made lies inside the texture, in the texture's format or in one that may be read as
-- it, and rows of it have the pitches that they have in the texture's own format.
pub view-IsView :
    (d : Device) (t : Texture) (v : View) {w : View}
    → v.mip < 2 ^ 64
    → v.layer < 2 ^ 64
    → t.mip_levels < 2 ^ 63
    → t.array_layers < 2 ^ 63
    → view d t v ≡ ok w
    → IsView d t v w
unfolding view
view-IsView d t v {w} hm hl sm sl e =
    let (some_mip, e1) = not_refused (out_of_range v.mip (max t.mip_levels 1)) _ _ e in
    let (some_layer, e2) = not_refused (out_of_range v.layer (max t.array_layers 1)) _ _ e1 in
    let mip = in_range v.mip (max t.mip_levels 1) (omega (arith, sm)) hm some_mip in
    let layer = in_range v.layer (max t.array_layers 1) (omega (arith, sl)) hl some_layer in
    elim (Format-discrete v.format format_invalid) [
      | yes own ↦
          let e3 : ok (record v { format = t.format }) ≡ ok w =
            sym (
              if_pos (Format-discrete v.format format_invalid) own
                (ok (record v { format = t.format }))
                (reinterpreted d t v (incompatible d t.format v.format)))
            ∙ e2 in
          own-IsView d t v w mip layer (ok-injective e3)
      | no other ↦ other-IsView d t v w (incompatible d t.format v.format) mip layer refl (
          sym (
            if_neg (Format-discrete v.format format_invalid) other
              (ok (record v { format = t.format }))
              (reinterpreted d t v (incompatible d t.format v.format)))
          ∙ e2)
    ]
