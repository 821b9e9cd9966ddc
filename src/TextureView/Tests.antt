-- ===== src/TextureView/Tests.antt =====
-- textureview.go: the levels and layers of a small texture.
use accel.Base.{◌+◌, ◌≤◌, ◌≡◌, refl, inl, false, arith}
use accel.Graph.Alias.{align_up}
use accel.Format.{
  rgba8_unorm, Device, format_table, entry, planar, bytes_per_pixel, aligned_row_pitch,
  stencil_plane_pitch,
}
use accel.TextureView.{Texture, subresource, find_level, level_of, mip_extent, level_pitch}
use accel.TextureView.Layout.{subresource_apart}

abbrev metal : Device
metal = record { is_cpu = false; min_row_pitch = 256 }

-- Two layers of 100 by 50 texels, with three levels.
abbrev layered : Texture
layered = record {
  format = rgba8_unorm;
  width = 100;
  height = 50;
  mip_levels = 3;
  array_layers = 2;
}

third_level : subresource metal layered 2 1 ≡ record {
  offset = 67072;
  size = 3072;
  width = 25;
  height = 12;
  stencil_pitch = 0;
  pitch = 256;
}
unfolding subresource find_level level_of mip_extent level_pitch aligned_row_pitch
    stencil_plane_pitch planar bytes_per_pixel entry format_table align_up
third_level = refl

subresource_apart_example :
    (subresource metal layered 0 1).offset + (subresource metal layered 0 1).size
    ≤ (subresource metal layered 2 0).offset
subresource_apart_example =
    subresource_apart metal layered 0 1 2 0 (omega arith) (omega arith) (inl (omega arith))
