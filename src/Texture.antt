-- ===== src/Texture.antt =====
-- texturealloc.go and texture.go: the check of a texture's descriptor, its bytes and its mip chain.
-- Extents and counts are natural numbers: a negative one is refused, or taken for 0, like 0.
pub mod Chain
pub mod Accepted
pub mod Bytes
mod Tests
use accel.Base.{
  ℕ, zero, suc, ◌+◌, ◌*◌, ◌/◌, max, Bool, true, false, not, ◌&&◌, ◌||◌, Option, none, some, ◌==◌,
  ltb, leb, if◌then◌else◌, bit_and,
}
use accel.Base.Result.{Result, ok, err, ◌>>=◌, ◌>>◌, fail_if}
use accel.Format.{Format, Device, FormatInfo, format_info, valid, stencil_plane_pitch}
use accel.TextureView.{Texture, mip_extent, level_pitch}

-- The loop of `mipChainLength`, which counts the levels before both axes reach one.
unfoldable pub mip_chain : ℕ → ℕ → ℕ → ℕ → Option ℕ
mip_chain zero w h n = none
mip_chain (suc fuel) w h n =
    let rest = mip_chain fuel (max 1 (w / 2)) (max 1 (h / 2)) (n + 1) in
    if ltb 1 w || ltb 1 h then rest else some n

unfoldable pub mip_chain_length : ℕ → ℕ → Option ℕ
mip_chain_length w h = mip_chain (suc (max w h)) w h 1

-- `TextureSampled`, `TextureStorage` and `TextureRenderTarget`
abbrev pub texture_sampled : ℕ
texture_sampled = 1

abbrev pub texture_storage : ℕ
texture_storage = 2

abbrev pub texture_render_target : ℕ
texture_render_target = 4

-- What the check reads of a descriptor beside what views read, and of the limits.
pub record TextureDescriptor : Type 0 where
  pub texture : Texture
  pub open texture use *
  pub depth : ℕ
  pub usage : ℕ

pub record Limits : Type 0 where
  pub max_texture_extent_2d : ℕ
  pub max_texture_array_layers : ℕ

pub data TextureError : Type 0 where
  not_creatable no_extent is_3d too_many_levels too_many_layers no_usage : TextureError
  not_renderable not_sampleable not_storage too_large : TextureError

-- `desc.MipLevels > mipChainLength(w, h)`, of what the loop returned.
abbrev pub longer : ℕ → Option ℕ → Bool
longer levels none = true
longer levels (some n) = ltb n levels

abbrev pub uses : ℕ → ℕ → Bool
uses usage bit = not (bit_and usage bit == 0)

unfoldable pub validate_texture :
    Device → Limits → TextureDescriptor → Result TextureError (Unit {0})
validate_texture d lim t = do
  fail_if (not (valid t.format)) not_creatable
  fail_if (t.width == 0 || t.height == 0) no_extent
  fail_if (ltb 1 t.depth) is_3d
  fail_if (ltb 1 t.mip_levels && longer t.mip_levels (mip_chain_length t.width t.height))
      too_many_levels
  fail_if (ltb 0 lim.max_texture_array_layers && ltb lim.max_texture_array_layers t.array_layers)
      too_many_layers
  fail_if (t.usage == 0) no_usage
  let info = format_info d t.format
  fail_if (uses t.usage texture_render_target && not info.renderable) not_renderable
  fail_if (uses t.usage texture_sampled && not info.sampleable) not_sampleable
  fail_if (uses t.usage texture_storage && not (info.storage_read || info.storage_write))
      not_storage
  fail_if (ltb lim.max_texture_extent_2d t.width || ltb lim.max_texture_extent_2d t.height)
      too_large

-- The loop of `textureBytes` from level `m`, with `left` levels left.
unfoldable pub level_bytes : Device → Texture → ℕ → ℕ → ℕ → ℕ
level_bytes d t zero m total = total
level_bytes d t (suc left) m total =
    let w = mip_extent t.width m in
    let h = mip_extent t.height m in
    level_bytes d t left (suc m) (
      total
      + (level_pitch d t.format w + stencil_plane_pitch d t.format w) * h * max t.array_layers 1)

unfoldable pub texture_bytes : Device → Texture → ℕ
texture_bytes d t = level_bytes d t (max t.mip_levels 1) 0 0
