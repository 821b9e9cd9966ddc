-- ===== src/Uniform/Fields.antt =====
-- uniform.go: a block that is written field by field is read back.
use accel.Base.{
  ℕ, ◌+◌, ◌^◌, ◌<◌, ◌≤◌, ◌≡◌, refl, sym, ap, ◌∙◌, subst, inl, inr, ◌⊎◌, true, false, some, List, [],
  ◌∷◌, leb, length, IsIn, arith,
}
use accel.Uniform.{
  new_uniform_writer, new_uniform_reader, out_of_block, writer_room, reader_room, put_uint32,
  uint32_at, write_u32, read_u32, write_fields,
}
use accel.Uniform.Bytes.{length-put_uint32, uint32-put_ne, uint32-put_self}

-- The bytes of a field lie in a block of `n` bytes, whose size is an `int`.
pub record Fits (n off : ℕ) : Type 0 where
  pub within : off + 4 ≤ n
  pub small : n < 2 ^ 63

in_block : (n off : ℕ) → Fits n off → out_of_block off 4 n ≡ false
unfolding out_of_block
in_block n off f = ground arith

in_slice : (n off : ℕ) → off + 4 ≤ n → leb (off + 4) n ≡ true
in_slice n off h = ground arith

write_u32-Fits :
    (b : List ℕ) (off v : ℕ)
    → Fits (length b) off
    → write_u32 (new_uniform_writer b) off v ≡ some (new_uniform_writer (put_uint32 b off v))
unfolding write_u32 writer_room new_uniform_writer
write_u32-Fits b off v f = rw (in_block (length b) off f, in_slice (length b) off f.within) refl

pub read_u32-Fits :
    (b : List ℕ) (off : ℕ)
    → Fits (length b) off
    → read_u32 (new_uniform_reader b) off ≡ some (uint32_at b off, new_uniform_reader b)
unfolding read_u32 reader_room new_uniform_reader
read_u32-Fits b off f = rw (in_block (length b) off f, in_slice (length b) off f.within) refl

-- No field shares a byte with one that is written later, and every field lies in the block.
abbrev pub Apart : ℕ → List (ℕ × ℕ) → Type 0
Apart off [] = Unit
Apart off ((k, v) ∷ rest) = ((k + 4 ≤ off) ⊎ (off + 4 ≤ k)) × Apart off rest

abbrev pub IsLaidOut : ℕ → List (ℕ × ℕ) → Type 0
IsLaidOut n [] = Unit
IsLaidOut n ((off, v) ∷ rest) = Fits n off × (v < 2 ^ 32) × Apart off rest × IsLaidOut n rest

-- What a block holds after the writes.
abbrev pub put_fields : List ℕ → List (ℕ × ℕ) → List ℕ
put_fields b [] = b
put_fields b ((off, v) ∷ rest) = put_fields (put_uint32 b off v) rest

pub length-put_fields : (b : List ℕ) (fs : List (ℕ × ℕ)) → length (put_fields b fs) ≡ length b
length-put_fields b [] = refl
length-put_fields b ((off, v) ∷ fs) =
    length-put_fields (put_uint32 b off v) fs ∙ length-put_uint32 b off v

pub write_fields-put :
    (b : List ℕ) (fs : List (ℕ × ℕ))
    → IsLaidOut (length b) fs
    → write_fields (new_uniform_writer b) fs ≡ some (new_uniform_writer (put_fields b fs))
unfolding write_fields
write_fields-put b [] l = refl
write_fields-put b ((off, v) ∷ fs) (f, small, apart, l) =
    rw (write_u32-Fits b off v f, write_fields)
      (write_fields-put (put_uint32 b off v) fs
        (subst (λ n. IsLaidOut n fs) (sym (length-put_uint32 b off v)) l))

uint32-put_fields :
    (b : List ℕ) (fs : List (ℕ × ℕ)) (off : ℕ)
    → Apart off fs
    → uint32_at (put_fields b fs) off ≡ uint32_at b off
uint32-put_fields b [] off a = refl
uint32-put_fields b ((k, v) ∷ fs) off (h, a) =
    uint32-put_fields (put_uint32 b k v) fs off a
    ∙ uint32-put_ne b k v off (elim h [ inl p ↦ inr p | inr q ↦ inl q ])

pub put_fields-IsIn :
    (b : List ℕ) (fs : List (ℕ × ℕ)) (off v : ℕ)
    → IsLaidOut (length b) fs
    → IsIn (off, v) fs
    → Fits (length b) off × (uint32_at (put_fields b fs) off ≡ v)
put_fields-IsIn b [] off v l i = absurd i
put_fields-IsIn b ((k, x) ∷ fs) off v (f, small, apart, l) (inl e) =
    let k_is : off ≡ k = ap (λ (q : ℕ × ℕ). q.0) e in
    let x_is : v ≡ x = ap (λ (q : ℕ × ℕ). q.1) e in
    (
      subst (Fits (length b)) (sym k_is) f,
      ap (uint32_at (put_fields (put_uint32 b k x) fs)) k_is
          ∙ uint32-put_fields (put_uint32 b k x) fs k apart
          ∙ uint32-put_self b k x f.within small
          ∙ sym x_is,
    )
put_fields-IsIn b ((k, x) ∷ fs) off v (f, small, apart, l) (inr m) =
    let same = length-put_uint32 b k x in
    let (g, e) =
      put_fields-IsIn (put_uint32 b k x) fs off v (subst (λ n. IsLaidOut n fs) (sym same) l) m in
    (subst (λ n. Fits n off) same g, e)

-- What a writer with the fields written leaves, and what a reader of it gives.
pub record ReadsBack (b : List ℕ) (fs : List (ℕ × ℕ)) (off v : ℕ) : Type 0 where
  pub block : List ℕ
  pub written : write_fields (new_uniform_writer b) fs ≡ some (new_uniform_writer block)
  pub size : length block ≡ length b
  pub read : read_u32 (new_uniform_reader block) off ≡ some (v, new_uniform_reader block)

-- Fields of 32-bit values that lie in a block and apart from one another are written without a
-- failure, to a block of the same size from which each is read back.
pub write_fields-ReadsBack :
    (b : List ℕ) (fs : List (ℕ × ℕ)) (off v : ℕ)
    → IsLaidOut (length b) fs
    → IsIn (off, v) fs
    → ReadsBack b fs off v
write_fields-ReadsBack b fs off v l i =
    let (f, e) = put_fields-IsIn b fs off v l i in
    let same = length-put_fields b fs in
    record {
      block = put_fields b fs;
      written = write_fields-put b fs l;
      size = same;
      read =
          read_u32-Fits (put_fields b fs) off (subst (λ n. Fits n off) (sym same) f)
          ∙ ap (λ x. some (x, new_uniform_reader (put_fields b fs))) e;
    }

-- A write after a failure changes nothing.
write_fields-failed :
    (b : List ℕ) (fs : List (ℕ × ℕ))
    → write_fields (record { dst = b; failed = true }) fs ≡ some (record { dst = b; failed = true })
unfolding write_fields write_u32 writer_room
write_fields-failed b [] = refl
write_fields-failed b ((off, v) ∷ fs) = write_fields-failed b fs

beyond : (n off : ℕ) → n < off + 4 → off + 4 < 2 ^ 63 → n < 2 ^ 63 → out_of_block off 4 n ≡ true
unfolding out_of_block
beyond n off h s t = ground arith

write_u32_beyond :
    (b : List ℕ) (off v : ℕ)
    → out_of_block off 4 (length b) ≡ true
    → write_u32 (new_uniform_writer b) off v ≡ some (record { dst = b; failed = true })
unfolding write_u32 writer_room new_uniform_writer
write_u32_beyond b off v h = rw h refl

-- A field whose end is beyond the block, and whose offset is at least four bytes below the largest
-- `int` so that its end does not wrap, sets the error, and neither it nor any later field is written.
pub write_fields_stops :
    (b : List ℕ) (off v : ℕ) (fs : List (ℕ × ℕ))
    → length b < off + 4
    → off + 4 < 2 ^ 63
    → write_fields (new_uniform_writer b) ((off, v) ∷ fs) ≡ some (record { dst = b; failed = true })
unfolding write_fields
write_fields_stops b off v fs h s =
    rw (write_u32_beyond b off v (beyond (length b) off h s (omega (arith, h, s))), write_fields)
      (write_fields-failed b fs)
