-- ===== src/Texture/Tests.antt =====
-- texturealloc.go: descriptors, and the views of a layered texture.
use accel.Base.{ℕ, suc, ◌+◌, ◌*◌, ◌≤◌, ◌≡◌, refl, false, none, some, arith}
use accel.Base.Result.{ok, err}
use accel.Graph.Alias.{align_up}
use accel.Format.{
  rgba8_unorm, rgba8_unorm_srgb, bgra8_unorm, Format-discrete, Device, valid, format_info,
  format_table, entry, planar, bytes_per_pixel, aligned_row_pitch, stencil_plane_pitch,
}
use accel.TextureView.{Texture, subresource, mip_extent, level_pitch}
use accel.TextureView.View.{incompatible, view, reinterpreted}
use accel.TextureView.View.Families.{IsView, view-IsView}
use accel.Texture.{
  TextureDescriptor, Limits, too_many_levels, mip_chain, mip_chain_length, validate_texture,
  level_bytes, texture_bytes,
}
use accel.Texture.Chain.{EndsAt, mip_chain_length_ends}
use accel.Texture.Accepted.{IsUsable, validate_texture-IsUsable}
use accel.Texture.Bytes.{subresource-le}

abbrev metal : Device
metal = record { is_cpu = false; min_row_pitch = 256 }

abbrev layered : Texture
layered = record { format = rgba8_unorm; width = 16; height = 8; mip_levels = 5; array_layers = 2 }

abbrev limits : Limits
limits = record { max_texture_extent_2d = 4096; max_texture_array_layers = 256 }

abbrev sampled : Texture → TextureDescriptor
sampled t = record { texture = t; depth = 1; usage = 5 }

chain_of_1024 : mip_chain_length 1024 1024 ≡ some 11
unfolding mip_chain_length mip_chain
chain_of_1024 = refl

accepted : validate_texture metal limits (sampled layered) ≡ ok tt
unfolding validate_texture valid mip_chain_length mip_chain format_info format_table
accepted = refl

one_level_more :
    validate_texture metal limits (sampled (record layered { mip_levels = 6 }))
    ≡ err too_many_levels
unfolding validate_texture valid mip_chain_length mip_chain format_info format_table
one_level_more = refl

bytes_of_layered : texture_bytes metal layered ≡ 256 * 2 * 16
unfolding texture_bytes level_bytes mip_extent level_pitch aligned_row_pitch stencil_plane_pitch
    planar bytes_per_pixel entry format_table align_up
bytes_of_layered = refl

srgb_view :
    view metal layered (record { mip = 4; layer = 1; format = rgba8_unorm_srgb })
    ≡ ok (record { mip = 4; layer = 1; format = rgba8_unorm_srgb })
unfolding view reinterpreted incompatible format_info format_table Format-discrete
srgb_view = refl

-- The channels of such a view are in another order than the texture's.
bgra_as_srgb : incompatible metal bgra8_unorm rgba8_unorm_srgb ≡ none
unfolding incompatible format_info format_table Format-discrete
bgra_as_srgb = refl

mip_chain_length_ends_example : (k : ℕ) × (mip_chain_length 16 8 ≡ some (suc k)) × EndsAt 16 8 k
mip_chain_length_ends_example = mip_chain_length_ends 16 8 (omega arith) (omega arith)

validate_texture-IsUsable_example : IsUsable metal limits (sampled layered)
validate_texture-IsUsable_example =
    validate_texture-IsUsable metal limits (sampled layered) accepted

subresource-le_example :
    (subresource metal layered 4 1).offset + (subresource metal layered 4 1).size
    ≤ texture_bytes metal layered
subresource-le_example = subresource-le metal layered 4 1 (omega arith) (omega arith)

view-IsView_example :
    IsView metal layered
      (record { mip = 4; layer = 1; format = rgba8_unorm_srgb })
      (record { mip = 4; layer = 1; format = rgba8_unorm_srgb })
view-IsView_example =
    view-IsView metal layered (record { mip = 4; layer = 1; format = rgba8_unorm_srgb })
      (omega arith) (omega arith) (omega arith) (omega arith) srgb_view
