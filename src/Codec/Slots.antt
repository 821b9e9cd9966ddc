-- ===== src/Codec/Slots.antt =====
-- internal/kernelc/emit/emit.go: the offsets of a codec lie in order and apart.
use accel.Base.{
  ℕ, zero, suc, ◌+◌, ◌*◌, ◌<◌, ◌≤◌, ◌≡◌, ap, subst, inr, List, [], ◌∷◌, ◌++◌, ◌^◌, arith,
}
use accel.Base.Result.{ok, ok-injective, >>=-eq-ok}
use accel.Std140.{
  Kind, k_scalar, k_vector, k_array, k_matrix, k_struct, Field, Fields, none_placed, placed,
}
use accel.Std140.Members.{IsPlaced, HasShape}
use accel.Codec.{
  UniformField, uniform_field, uniform_fields, Slot, item, cell, run_of, columns_of, codec_kind,
  codec_writes, filled,
}
use accel.Uniform.Fields.{Apart, IsLaidOut}

-- Words in order, from an offset to an end.
abbrev pub IsRun : ℕ → List (ℕ × Slot) → ℕ → Type 0
IsRun lo [] hi = lo ≤ hi
IsRun lo ((at, s) ∷ ws) hi = (lo ≤ at) × IsRun (at + 4) ws hi

IsRun-from : (lo lo' hi : ℕ) (ws : List (ℕ × Slot)) → lo' ≤ lo → IsRun lo ws hi → IsRun lo' ws hi
IsRun-from lo lo' hi [] le r = omega (arith, le, r)
IsRun-from lo lo' hi ((at, s) ∷ ws) le (a, r) = (omega (arith, le, a), r)

IsRun-append :
    (lo mid hi : ℕ) (xs ys : List (ℕ × Slot))
    → IsRun lo xs mid
    → IsRun mid ys hi
    → IsRun lo (xs ++ ys) hi
IsRun-append lo mid hi [] ys r s = IsRun-from mid lo hi ys r s
IsRun-append lo mid hi ((at, x) ∷ xs) ys (a, r) s = (a, IsRun-append (at + 4) mid hi xs ys r s)

run-le : (lo hi : ℕ) (ws : List (ℕ × Slot)) → IsRun lo ws hi → lo ≤ hi
run-le lo hi [] r = r
run-le lo hi ((at, s) ∷ ws) (a, r) = omega (arith, a, run-le (at + 4) hi ws r)

run_of-IsRun :
    (slot : ℕ → Slot) (base step i n : ℕ)
    → 4 ≤ step
    → IsRun (base + i * step) (run_of slot base step i n) (base + (i + n) * step)
unfolding run_of
run_of-IsRun slot base step i zero le = omega arith
run_of-IsRun slot base step i (suc n) le = (
  omega arith,
  IsRun-from (base + suc i * step) (base + i * step + 4) (base + (i + suc n) * step)
      (run_of slot base step (suc i) n) (omega arith)
      (subst (λ k. IsRun (base + suc i * step) (run_of slot base step (suc i) n) (base + k * step))
        (omega arith) (run_of-IsRun slot base step (suc i) n le)),
)

IsRun-to : (lo hi hi' : ℕ) (ws : List (ℕ × Slot)) → hi ≤ hi' → IsRun lo ws hi → IsRun lo ws hi'
IsRun-to lo hi hi' [] le r = omega (arith, le, r)
IsRun-to lo hi hi' ((at, s) ∷ ws) le (a, r) = (a, IsRun-to (at + 4) hi hi' ws le r)

-- `n` words from `base`.
words-IsRun :
    (slot : ℕ → Slot) (base step n hi : ℕ)
    → 4 ≤ step
    → base + n * step ≤ hi
    → IsRun base (run_of slot base step 0 n) hi
words-IsRun slot base step n hi le fits =
    IsRun-to base (base + (0 + n) * step) hi (run_of slot base step 0 n) (omega (arith, fits)) (
      subst (λ b. IsRun b (run_of slot base step 0 n) (base + (0 + n) * step)) (omega arith)
        (run_of-IsRun slot base step 0 n le))

columns_of-IsRun :
    (f : UniformField) (col n : ℕ)
    → f.stride ≡ 16
    → f.rows ≤ 4
    → IsRun (f.offset + col * 16) (columns_of f col n) (f.offset + (col + n) * 16)
unfolding columns_of
columns_of-IsRun f col zero e le = omega arith
columns_of-IsRun f col (suc n) e le =
    let base = f.offset + col * f.stride in
    let here : base ≡ f.offset + col * 16 = ap (λ s. f.offset + col * s) e in
    let end = f.offset + (col + suc n) * 16 in
    subst (λ b. IsRun b (run_of (cell f.name col) base 4 0 f.rows ++ columns_of f (suc col) n) end)
      here
      (IsRun-append base (f.offset + suc col * 16) end (run_of (cell f.name col) base 4 0 f.rows)
        (columns_of f (suc col) n)
        (words-IsRun (cell f.name col) base 4 f.rows (f.offset + suc col * 16) (omega arith)
          (omega (arith, here, le)))
        (subst (λ k. IsRun (f.offset + suc col * 16) (columns_of f (suc col) n) (f.offset + k * 16))
          (omega arith) (columns_of-IsRun f (suc col) n e le)))

codec_kind-IsRun :
    (f : Field) (k : Kind) {ws : List (ℕ × Slot)}
    → HasShape k f
    → codec_kind (uniform_field f) k ≡ ok ws
    → IsRun f.offset ws (f.offset + f.size)
unfolding codec_kind
codec_kind-IsRun f k_scalar h e =
    subst (λ ws. IsRun f.offset ws (f.offset + f.size)) (ok-injective e)
      (omega arith, omega (arith, h.0))
codec_kind-IsRun f k_vector (size, two, four, al) e =
    subst (λ ws. IsRun f.offset ws (f.offset + f.size)) (ok-injective e)
      (words-IsRun (item f.name) f.offset 4 f.len (f.offset + f.size) (omega arith)
        (omega (arith, size)))
codec_kind-IsRun f k_array (size, stride, one, al) e =
    subst (λ ws. IsRun f.offset ws (f.offset + f.size)) (ok-injective e)
      (words-IsRun (item f.name) f.offset f.stride f.len (f.offset + f.size) (omega (arith, stride))
        (let by : f.len * f.stride ≡ f.len * 16 = ap (λ s. f.len * s) stride in
          omega (arith, size, by)))
codec_kind-IsRun f k_matrix (size, stride, one, row, rows, al) e =
    subst (λ ws. IsRun f.offset ws (f.offset + f.size)) (ok-injective e)
      (IsRun-to f.offset (f.offset + (0 + f.len) * 16) (f.offset + f.size)
        (columns_of (uniform_field f) 0 f.len) (omega (arith, size))
        (subst (λ b. IsRun b (columns_of (uniform_field f) 0 f.len) (f.offset + (0 + f.len) * 16))
          (omega arith) (columns_of-IsRun (uniform_field f) 0 f.len stride rows)))
codec_kind-IsRun f k_struct h e = cc

-- The writes of placed members lie in order between their ends.
pub codec_writes-IsRun :
    (lo hi : ℕ) (fs : Fields) {ws : List (ℕ × Slot)}
    → IsPlaced lo fs hi
    → codec_writes (uniform_fields fs) ≡ ok ws
    → IsRun lo ws hi
unfolding codec_writes uniform_fields IsPlaced
codec_writes-IsRun lo hi none_placed p e = subst (λ ws. IsRun lo ws hi) (ok-injective e) p
codec_writes-IsRun lo hi (placed f el fs) (above, al, m, n, rest) e =
    let (ws, first, e1) = >>=-eq-ok (codec_kind (uniform_field f) f.kind) _ e in
    let (more, after, e2) = >>=-eq-ok (codec_writes (uniform_fields fs)) _ e1 in
    subst (λ xs. IsRun lo xs hi) (ok-injective e2)
      (IsRun-append lo (f.offset + f.size) hi ws more
        (IsRun-from f.offset lo (f.offset + f.size) ws above
          (codec_kind-IsRun f f.kind m.shape first))
        (codec_writes-IsRun (f.offset + f.size) hi fs rest after))

filled-Apart :
    (value : Slot → ℕ) (off lo hi : ℕ) (ws : List (ℕ × Slot))
    → off + 4 ≤ lo
    → IsRun lo ws hi
    → Apart off (filled value ws)
filled-Apart value off lo hi [] le r = tt
filled-Apart value off lo hi ((at, s) ∷ ws) le (a, r) =
    (inr (omega (arith, le, a)), filled-Apart value off (at + 4) hi ws (omega (arith, le, a)) r)

-- Words in order are a layout of any block that they end in.
pub filled-IsLaidOut :
    (value : Slot → ℕ) (lo hi n : ℕ) (ws : List (ℕ × Slot))
    → ((s : Slot) → value s < 2 ^ 32)
    → hi ≤ n
    → n < 2 ^ 63
    → IsRun lo ws hi
    → IsLaidOut n (filled value ws)
filled-IsLaidOut value lo hi n [] small le int r = tt
filled-IsLaidOut value lo hi n ((at, s) ∷ ws) small le int (a, r) = (
  record { within = omega (arith, run-le (at + 4) hi ws r, le); small = int },
  small s,
  filled-Apart value at (at + 4) hi ws (omega arith) r,
  filled-IsLaidOut value (at + 4) hi n ws small le int r,
)
