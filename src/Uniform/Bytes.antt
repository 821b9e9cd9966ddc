-- ===== src/Uniform/Bytes.antt =====
-- uniform.go: the four bytes of a value.
use accel.Base.{
  ℕ, ◌+◌, ◌/◌, ◌%◌, ◌^◌, ◌<◌, ◌≤◌, ◌≡◌, ◌∙◌, inl, inr, ◌⊎◌, List, length, set, get_or, length-set,
  get_or-set_self, get_or-set_ne, arith,
}
use accel.Uniform.{put_uint32, uint32_at}

pub length-put_uint32 : (b : List ℕ) (off v : ℕ) → length (put_uint32 b off v) ≡ length b
unfolding put_uint32
length-put_uint32 b off v =
    let b1 = set b off (v % 256) in
    let b2 = set b1 (off + 1) (v / 2 ^ 8 % 256) in
    let b3 = set b2 (off + 2) (v / 2 ^ 16 % 256) in
    length-set b3 (off + 3) (v / 2 ^ 24 % 256)
    ∙ length-set b2 (off + 2) (v / 2 ^ 16 % 256)
    ∙ length-set b1 (off + 1) (v / 2 ^ 8 % 256)
    ∙ length-set b off (v % 256)

-- A byte elsewhere is left alone.
pub put_uint32_ne :
    (b : List ℕ) (off v k : ℕ)
    → (k < off) ⊎ (off + 4 ≤ k)
    → get_or (put_uint32 b off v) k 0 ≡ get_or b k 0
unfolding put_uint32
put_uint32_ne b off v k h =
    get_or-set_ne _ (off + 3) k _ 0 (λ e. omega (arith, e, h))
    ∙ get_or-set_ne _ (off + 2) k _ 0 (λ e. omega (arith, e, h))
    ∙ get_or-set_ne _ (off + 1) k _ 0 (λ e. omega (arith, e, h))
    ∙ get_or-set_ne b off k _ 0 (λ e. omega (arith, e, h))

pub uint32-put_ne :
    (b : List ℕ) (off v k : ℕ)
    → (k + 4 ≤ off) ⊎ (off + 4 ≤ k)
    → uint32_at (put_uint32 b off v) k ≡ uint32_at b k
unfolding uint32_at
uint32-put_ne b off v k h =
    let at = λ (d : ℕ) (small : d < 4).
      put_uint32_ne b off v (k + d)
        (elim h [ inl p ↦ inl (omega (arith, p, small)) | inr q ↦ inr (omega (arith, q)) ]) in
    let first =
      put_uint32_ne b off v k (elim h [ inl p ↦ inl (omega (arith, p)) | inr q ↦ inr q ]) in
    omega (arith, first, at 1 (omega arith), at 2 (omega arith), at 3 (omega arith))

pub uint32-put_self :
    (b : List ℕ) (off v : ℕ)
    → off + 4 ≤ length b
    → v < 2 ^ 32
    → uint32_at (put_uint32 b off v) off ≡ v
unfolding put_uint32 uint32_at
uint32-put_self b off v h small =
    let b1 = set b off (v % 256) in
    let b2 = set b1 (off + 1) (v / 2 ^ 8 % 256) in
    let b3 = set b2 (off + 2) (v / 2 ^ 16 % 256) in
    let l1 = length-set b off (v % 256) in
    let l2 = length-set b1 (off + 1) (v / 2 ^ 8 % 256) in
    let l3 = length-set b2 (off + 2) (v / 2 ^ 16 % 256) in
    let e0 =
      get_or-set_ne b3 (off + 3) off (v / 2 ^ 24 % 256) 0 (λ e. omega (arith, e))
      ∙ get_or-set_ne b2 (off + 2) off (v / 2 ^ 16 % 256) 0 (λ e. omega (arith, e))
      ∙ get_or-set_ne b1 (off + 1) off (v / 2 ^ 8 % 256) 0 (λ e. omega (arith, e))
      ∙ get_or-set_self b off (v % 256) 0 (omega (arith, h)) in
    let e1 =
      get_or-set_ne b3 (off + 3) (off + 1) (v / 2 ^ 24 % 256) 0 (λ e. omega (arith, e))
      ∙ get_or-set_ne b2 (off + 2) (off + 1) (v / 2 ^ 16 % 256) 0 (λ e. omega (arith, e))
      ∙ get_or-set_self b1 (off + 1) (v / 2 ^ 8 % 256) 0 (omega (arith, h, l1)) in
    let e2 =
      get_or-set_ne b3 (off + 3) (off + 2) (v / 2 ^ 24 % 256) 0 (λ e. omega (arith, e))
      ∙ get_or-set_self b2 (off + 2) (v / 2 ^ 16 % 256) 0 (omega (arith, h, l1, l2)) in
    let e3 = get_or-set_self b3 (off + 3) (v / 2 ^ 24 % 256) 0 (omega (arith, h, l1, l2, l3)) in
    omega (arith, e0, e1, e2, e3, small)
