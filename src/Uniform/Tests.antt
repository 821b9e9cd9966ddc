-- ===== src/Uniform/Tests.antt =====
-- uniform.go: a block with two fields.
use accel.Base.{ℕ, ◌-◌, ◌^◌, ◌≡◌, refl, inl, inr, true, none, some, List, [], ◌∷◌, arith, replicate}
use accel.Uniform.{
  new_uniform_writer, writer_room, out_of_block, put_uint32, write_u32, write_fields,
}
use accel.Uniform.Fields.{ReadsBack, write_fields-ReadsBack, write_fields_stops}

abbrev empty_block : List ℕ
empty_block = replicate 16 0

abbrev two_fields : List (ℕ × ℕ)
two_fields = (0, 0x3f800000) ∷ (12, 7) ∷ []

encoded :
    write_fields (new_uniform_writer empty_block) two_fields
    ≡ some (
        new_uniform_writer
          (0 ∷ 0 ∷ 0x80 ∷ 0x3f ∷ 0 ∷ 0 ∷ 0 ∷ 0 ∷ 0 ∷ 0 ∷ 0 ∷ 0 ∷ 7 ∷ 0 ∷ 0 ∷ 0 ∷ []))
unfolding write_fields write_u32 writer_room out_of_block new_uniform_writer put_uint32
encoded = refl

-- Such an offset wraps, passes the check and is out of the slice.
wrapped_offset_panics : write_u32 (new_uniform_writer empty_block) (2 ^ 63 - 4) 1 ≡ none
unfolding write_u32 writer_room out_of_block new_uniform_writer
wrapped_offset_panics = refl

write_fields-ReadsBack_example : ReadsBack empty_block two_fields 12 7
write_fields-ReadsBack_example =
    write_fields-ReadsBack empty_block two_fields 12 7 (omega arith) (inr (inl refl))

write_fields_stops_example :
    write_fields (new_uniform_writer empty_block) ((14, 1) ∷ two_fields)
    ≡ some (record { dst = empty_block; failed = true })
write_fields_stops_example =
    write_fields_stops empty_block 14 1 two_fields (omega arith) (omega arith)
