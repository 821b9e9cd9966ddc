-- ===== src/TextureView.antt =====
-- textureview.go: views of a texture, and the bytes of its subresources. The device's fields and
-- `FormatInfo` are those of Format. Extents and indices are natural numbers.
pub mod Layout
pub mod View
mod Tests
use accel.Base.{
  ℕ, zero, suc, ◌+◌, ◌*◌, ◌/◌, ◌^◌, max, Bool, true, false, not, ◌&&◌, ◌||◌, Option, none, some,
  ◌==◌, leb, if◌then◌else◌,
}
use accel.Base.Result.{Result, ok, err}
use accel.Graph.Alias.{align_up}
use accel.Format.{
  Format, Device, FormatInfo, format_info, aligned_row_pitch, stencil_plane_pitch, plan,
  DriverFormat,
}

-- The fields of a texture's descriptor that views read.
pub record Texture : Type 0 where
  pub format : Format
  pub width : ℕ
  pub height : ℕ
  pub mip_levels : ℕ
  pub array_layers : ℕ

pub record Subresource : Type 0 where
  pub offset : ℕ
  pub size : ℕ
  pub width : ℕ
  pub height : ℕ
  pub stencil_pitch : ℕ
  pub pitch : ℕ

unfoldable pub mip_extent : ℕ → ℕ → ℕ
mip_extent base level = max 1 (base / 2 ^ level)

unfoldable pub level_pitch : Device → Format → ℕ → ℕ
level_pitch d f width =
    let p = aligned_row_pitch d f width in
    if not (p == 0) then p else align_up (width * 4) d.min_row_pitch

-- The subresource of level `m`, where the level starts at `off`.
unfoldable pub level_of : Device → Texture → ℕ → ℕ → ℕ → Subresource
level_of d t m off layer =
    let w = mip_extent t.width m in
    let h = mip_extent t.height m in
    let pitch = level_pitch d t.format w in
    let stencil = stencil_plane_pitch d t.format w in
    let size = (pitch + stencil) * h in
    record {
      offset = off + layer * size;
      size = size;
      width = w;
      height = h;
      stencil_pitch = stencil;
      pitch = pitch;
    }

abbrev pub no_subresource : Subresource
no_subresource = record {
  offset = 0;
  size = 0;
  width = 0;
  height = 0;
  stencil_pitch = 0;
  pitch = 0;
}

-- The loop over the levels from `m`, with `left` of them left.
unfoldable pub find_level : Device → Texture → ℕ → ℕ → ℕ → ℕ → ℕ → Subresource
find_level d t mip layer zero m off = no_subresource
find_level d t mip layer (suc left) m off =
    let here = level_of d t m off layer in
    let later = find_level d t mip layer left (suc m) (off + here.size * max t.array_layers 1) in
    if m == mip then here else later

unfoldable pub subresource : Device → Texture → ℕ → ℕ → Subresource
subresource d t mip layer = find_level d t mip layer (max t.mip_levels 1) 0 0
