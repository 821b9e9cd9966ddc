-- ===== src/Codec/RoundTrip.antt =====
-- internal/kernelc/emit/emit.go: what `Encode` writes, `Decode` reads.
use accel.Base.{
  ℕ, zero, suc, ◌+◌, ◌*◌, ◌∙◌, ◌^◌, ◌<◌, ◌≤◌, ◌≡◌, ◌≢◌, refl, sym, ap, subst, inl, inr, some, List,
  [], ◌∷◌, ◌++◌, length, IsIn,
}
use accel.Base.Result.{ok, ok-injective, >>=-eq-ok}
use accel.Std140.{
  Name, GoFields, struct, layout_fields, layout_struct, close_struct, Layout, Kind, k_scalar,
  k_vector, k_array, k_matrix, k_struct, layout, Fields, none_placed, placed, layout_of,
}
use accel.Std140.Placed.{layout_of-IsBlock}
use accel.Codec.{
  UniformField, uniform_field, uniform_fields, Slot, item, cell, run_of, columns_of, read_run_of,
  read_columns_of, codec_kind, decode_kind, codec_writes, codec_reads, filled, encode, read_slots,
  decode,
}
use accel.Codec.Parts.{IsPart, HasPart, codec_writes-HasPart}
use accel.Codec.Slots.{codec_writes-IsRun, filled-IsLaidOut}
use accel.Uniform.{new_uniform_writer, new_uniform_reader, uint32_at}
use accel.Uniform.Fields.{
  Fits, IsLaidOut, put_fields, write_fields-put, put_fields-IsIn, length-put_fields, read_u32-Fits,
}

-- A codec has no member that is a struct.
abbrev pub IsFlat : Fields → Type 0
IsFlat none_placed = Unit
IsFlat (placed f e fs) = (f.kind ≢ k_struct) × IsFlat fs

-- The two loops agree.
read_run_of-eq :
    (slot : ℕ → Slot) (base step i n : ℕ)
    → read_run_of slot base step i n ≡ run_of slot base step i n
unfolding run_of read_run_of
read_run_of-eq slot base step i zero = refl
read_run_of-eq slot base step i (suc n) =
    ap (λ ws. (base + i * step, slot i) ∷ ws) (read_run_of-eq slot base step (suc i) n)

read_columns_of-eq : (f : UniformField) (col n : ℕ) → read_columns_of f col n ≡ columns_of f col n
unfolding columns_of read_columns_of
read_columns_of-eq f col zero = refl
read_columns_of-eq f col (suc n) =
    let base = f.offset + col * f.stride in
    rw (read_run_of-eq (cell f.name col) base 4 0 f.rows, read_columns_of-eq f (suc col) n) refl

-- A member that is not a struct has writes, and the reads are the same.
kind-mirrored :
    (f : UniformField) (k : Kind)
    → k ≢ k_struct
    → (ws : List (ℕ × Slot)) × (codec_kind f k ≡ ok ws) × (decode_kind f k ≡ ok ws)
unfolding codec_kind decode_kind
kind-mirrored f k_scalar flat = (_, refl, refl)
kind-mirrored f k_vector flat = (_, refl, ap ok (read_run_of-eq (item f.name) f.offset 4 0 f.len))
kind-mirrored f k_array flat =
    (_, refl, ap ok (read_run_of-eq (item f.name) f.offset f.stride 0 f.len))
kind-mirrored f k_matrix flat = (_, refl, ap ok (read_columns_of-eq f 0 f.len))
kind-mirrored f k_struct flat = absurd (flat refl)

-- The writes and the reads of a flat block are the same statements.
codec-mirrored :
    (fs : Fields)
    → IsFlat fs
    → (ws : List (ℕ × Slot)) × (codec_writes (uniform_fields fs) ≡ ok ws)
      × (codec_reads (uniform_fields fs) ≡ ok ws)
unfolding codec_writes codec_reads uniform_fields
codec-mirrored none_placed flat = ([], refl, refl)
codec-mirrored (placed f e fs) (one, flat) =
    let (ws, w, r) = kind-mirrored (uniform_field f) f.kind one in
    let (rest, ws_rest, rs_rest) = codec-mirrored fs flat in
    (ws ++ rest, rw (w, ws_rest) refl, rw (r, rs_rest) refl)

-- What `Decode` assigns, if it reads back the value.
abbrev pub assigned : (Slot → ℕ) → List (ℕ × Slot) → List (Slot × ℕ)
assigned value [] = []
assigned value ((at, s) ∷ ws) = (s, value s) ∷ assigned value ws

assigned-IsIn :
    (value : Slot → ℕ) (ws : List (ℕ × Slot)) (s : Slot)
    → HasPart s ws
    → IsIn (s, value s) (assigned value ws)
assigned-IsIn value [] s (at, h) = absurd h
assigned-IsIn value ((x, y) ∷ ws) s (at, inl e) = inl (ap (λ q. (q.1, value q.1)) e)
assigned-IsIn value ((x, y) ∷ ws) s (at, inr h) = inr (assigned-IsIn value ws s (at, h))

-- Every read of a block is of a part that it holds.
abbrev IsHeld : List ℕ → (Slot → ℕ) → List (ℕ × Slot) → Type 0
IsHeld b value [] = Unit
IsHeld b value ((at, s) ∷ ws) = Fits (length b) at × (uint32_at b at ≡ value s) × IsHeld b value ws

read_slots-IsHeld :
    (b : List ℕ) (value : Slot → ℕ) (ws : List (ℕ × Slot))
    → IsHeld b value ws
    → read_slots (new_uniform_reader b) ws ≡ some (assigned value ws, new_uniform_reader b)
unfolding read_slots
read_slots-IsHeld b value [] h = refl
read_slots-IsHeld b value ((at, s) ∷ ws) (fits, same, h) =
    rw (read_u32-Fits b at fits, read_slots-IsHeld b value ws h, read_slots)
      (ap (λ v. some ((s, v) ∷ assigned value ws, new_uniform_reader b)) same)

-- A block holds all of what is written to it.
filled-IsHeld :
    (b : List ℕ) (value : Slot → ℕ) (all ws : List (ℕ × Slot))
    → IsLaidOut (length b) (filled value all)
    → ((p : ℕ × ℕ) → IsIn p (filled value ws) → IsIn p (filled value all))
    → IsHeld (put_fields b (filled value all)) value ws
filled-IsHeld b value all [] laid sub = tt
filled-IsHeld b value all ((at, s) ∷ ws) laid sub =
    let (fits, same) =
      put_fields-IsIn b (filled value all) at (value s) laid (sub (at, value s) (inl refl)) in
    (
      subst (λ n. Fits n at) (sym (length-put_fields b (filled value all))) fits,
      same,
      filled-IsHeld b value all ws laid (λ p i. sub p (inr i)),
    )

abbrev members_of : Layout → Fields
members_of (layout name fs n) = fs

-- The members of a layout are those that `layoutStruct` makes.
layout_of-fields :
    (name type_name : Name) (gs : GoFields) (fs : Fields) (n : ℕ)
    → layout_of name (struct gs) ≡ ok (layout type_name fs n)
    → (end : ℕ) × (layout_fields gs 0 0 ≡ ok (fs, end))
unfolding layout_of layout_struct close_struct
layout_of-fields name type_name gs fs n made =
    let ((ps, end), first, last) = >>=-eq-ok (layout_fields gs 0 0) _ made in
    (end, first ∙ ap (λ l. ok (members_of l, end)) (ok-injective last))

-- The statements of a codec, the block that `Encode` leaves, what `Decode` makes of it, and that it
-- assigns every part of a value of the struct.
pub record Codes (gs : GoFields) (fs : List UniformField) (dst : List ℕ) (value : Slot → ℕ)
    : Type 0 where
  pub statements : List (ℕ × Slot)
  pub writes : codec_writes fs ≡ ok statements
  pub reads : codec_reads fs ≡ ok statements
  pub block : List ℕ
  pub size : length block ≡ length dst
  pub encoded : encode statements value dst ≡ some (new_uniform_writer block)
  pub decoded : decode statements block ≡ some (assigned value statements, new_uniform_reader block)
  pub complete : (s : Slot) → IsPart gs s → IsIn (s, value s) (assigned value statements)

-- The layout of a struct without nested structs has a codec, and for a value of 32-bit parts and a
-- destination of at least the block's size, whose length is an int, `Encode` sets no error, keeps the
-- length, and `Decode` of what it wrote assigns every part of the value again: each scalar member,
-- and each element of an array and of an array of arrays, as the struct's Go type has them.
pub layout_of-Codes :
    (name type_name : Name) (gs : GoFields) (fs : Fields) (n : ℕ) (dst : List ℕ) (value : Slot → ℕ)
    → layout_of name (struct gs) ≡ ok (layout type_name fs n)
    → IsFlat fs
    → n ≤ length dst
    → length dst < 2 ^ 63
    → ((s : Slot) → value s < 2 ^ 32)
    → Codes gs (uniform_fields fs) dst value
unfolding encode decode
layout_of-Codes name type_name gs fs n dst value made flat room int small =
    let (multiple, run) = layout_of-IsBlock name (struct gs) made in
    let (end, placed_at) = layout_of-fields name type_name gs fs n made in
    let (ws, w, r) = codec-mirrored fs flat in
    let laid =
      filled-IsLaidOut value 0 n (length dst) ws small room int (codec_writes-IsRun 0 n fs run w) in
    let block = put_fields dst (filled value ws) in
    record {
      statements = ws;
      writes = w;
      reads = r;
      block = block;
      size = length-put_fields dst (filled value ws);
      encoded = write_fields-put dst (filled value ws) laid;
      decoded = read_slots-IsHeld block value ws (filled-IsHeld dst value ws ws laid (λ p i. i));
      complete = λ s p. assigned-IsIn value ws s (codec_writes-HasPart gs 0 0 s placed_at w p);
    }
