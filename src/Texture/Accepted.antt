-- ===== src/Texture/Accepted.antt =====
-- texturealloc.go: what a descriptor that `validateTexture` accepts is.
use accel.Base.{
  ℕ, suc, ◌<◌, ◌≤◌, ◌≡◌, subst, ◌⊎◌, max, Bool, true, false, not, ◌&&◌, ◌||◌, ◌==◌, ==_iff, ltb,
  arith,
}
use accel.Base.Result.{ok, then_passed, last_passed}
use accel.Format.{Device, format_info, valid}
use accel.TextureView.{mip_extent}
use accel.Texture.{
  Limits, TextureDescriptor, longer, uses, texture_sampled, texture_storage, texture_render_target,
  mip_chain_length, validate_texture,
}
use accel.Texture.Chain.{mip_chain_length_ends}

-- The format is creatable and can be used as it is declared to be, the extents are positive and in
-- the limit, and each level but the first is smaller than the one before it.
pub record IsUsable (d : Device) (lim : Limits) (t : TextureDescriptor) : Type 0 where
  pub creatable : valid t.format ≡ true
  pub width : (0 < t.width) × (t.width ≤ lim.max_texture_extent_2d)
  pub height : (0 < t.height) × (t.height ≤ lim.max_texture_extent_2d)
  pub levels :
      (m : ℕ)
      → suc m < max t.mip_levels 1
      → (1 < mip_extent t.width m) ⊎ (1 < mip_extent t.height m)
  pub renders :
      uses t.usage texture_render_target ≡ true → (format_info d t.format).renderable ≡ true
  pub samples : uses t.usage texture_sampled ≡ true → (format_info d t.format).sampleable ≡ true

positive : (w h : ℕ) → (w == 0 || h == 0) ≡ false → (0 < w) × (0 < h)
positive w h e = ground (arith, ==_iff w 0, ==_iff h 0)

limited : (m w h : ℕ) → (ltb m w || ltb m h) ≡ false → (w ≤ m) × (h ≤ m)
limited m w h e = ground arith

supported : (u i : Bool) → (u && not i) ≡ false → u ≡ true → i ≡ true
supported u i e h = ground arith

few_levels : (levels n : ℕ) → (ltb 1 levels && ltb n levels) ≡ false → 1 ≤ n → max levels 1 ≤ n
few_levels levels n e p = ground arith

chain_levels :
    (w h levels : ℕ)
    → 0 < w
    → 0 < h
    → (ltb 1 levels && longer levels (mip_chain_length w h)) ≡ false
    → (m : ℕ) → suc m < max levels 1
    → (1 < mip_extent w m) ⊎ (1 < mip_extent h m)
chain_levels w h levels pw ph e m lt =
    let (k, at, ends) = mip_chain_length_ends w h pw ph in
    let e' : (ltb 1 levels && ltb (suc k) levels) ≡ false =
      subst (λ o. (ltb 1 levels && longer levels o) ≡ false) at e in
    let few = few_levels levels (suc k) e' (omega arith) in ends.before m (omega (arith, lt, few))

-- A descriptor that is accepted is usable: its format is creatable and supports the declared uses as
-- a target and for sampling, its extents are positive and within the limit, and every level but the
-- first has a larger one before it, so that none repeats the last.
pub validate_texture-IsUsable :
    (d : Device) (lim : Limits) (t : TextureDescriptor)
    → validate_texture d lim t ≡ ok tt
    → IsUsable d lim t
unfolding validate_texture
validate_texture-IsUsable d lim t e =
    let i = format_info d t.format in
    let (c1, e1) = then_passed (not (valid t.format)) _ _ e in
    let (c2, e2) = then_passed (t.width == 0 || t.height == 0) _ _ e1 in
    let (c3, e3) = then_passed (ltb 1 t.depth) _ _ e2 in
    let (c4, e4) =
      then_passed (ltb 1 t.mip_levels && longer t.mip_levels (mip_chain_length t.width t.height)) _
        _ e3 in
    let (c5, e5) =
      then_passed
        (ltb 0 lim.max_texture_array_layers && ltb lim.max_texture_array_layers t.array_layers) _ _
        e4 in
    let (c6, e6) = then_passed (t.usage == 0) _ _ e5 in
    let (c7, e7) = then_passed (uses t.usage texture_render_target && not i.renderable) _ _ e6 in
    let (c8, e8) = then_passed (uses t.usage texture_sampled && not i.sampleable) _ _ e7 in
    let (c9, e9) =
      then_passed (uses t.usage texture_storage && not (i.storage_read || i.storage_write)) _ _
        e8 in
    let c10 = last_passed _ _ e9 in
    let (pw, ph) = positive t.width t.height c2 in
    let (lw, lh) = limited lim.max_texture_extent_2d t.width t.height c10 in
    record {
      creatable = yes_of (valid t.format) c1;
      width = (pw, lw);
      height = (ph, lh);
      levels = chain_levels t.width t.height t.mip_levels pw ph c4;
      renders = supported (uses t.usage texture_render_target) i.renderable c7;
      samples = supported (uses t.usage texture_sampled) i.sampleable c8;
    }
  where
    yes_of : (b : Bool) → not b ≡ false → b ≡ true
    yes_of b h = ground arith
