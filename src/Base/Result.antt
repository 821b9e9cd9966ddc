-- ===== src/Base/Result.antt =====
-- A value or the error that took its place, and the chain of such.
use mathlib.Core.Path.{◌≡◌, refl}
use mathlib.Core.Bool.{Bool, true, false}

pub data Result {ℓ κ} (E : Type ℓ) (A : Type κ) : Type (ℓ ⊔ κ) where
  ok : A → Result E A
  err : E → Result E A

infixl 5 ◌>>=◌ ◌>>◌
abbrev pub ◌>>=◌ {ℓ κ ξ} :
    {E : Type ℓ} {A : Type κ} {B : Type ξ} → Result E A → (A → Result E B) → Result E B
ok a >>= f = f a
err e >>= f = err e

abbrev pub ◌>>◌ {ℓ κ} : {E : Type ℓ} {B : Type κ} → Result E (Unit {0}) → Result E B → Result E B
m >> k = m >>= λ _. k

-- `if bad { return err }`
abbrev pub fail_if {ℓ} : {E : Type ℓ} → Bool → E → Result E (Unit {0})
fail_if true e = err e
fail_if false e = ok tt

-- A chain that gives a value passed its checks.
pub then_passed :
    {E A : Type 0} (c : Bool) (e : E) (k : Result E A) {out : A}
    → (fail_if c e >> k) ≡ ok out
    → (c ≡ false) × (k ≡ ok out)
then_passed true e k h = cc
then_passed false e k h = (refl, h)

pub last_passed : {E : Type 0} (c : Bool) (e : E) → fail_if c e ≡ ok tt → c ≡ false
last_passed true e h = cc
last_passed false e h = refl

-- A chain that gives a value passed its first step.
pub >>=-eq-ok {ℓ κ ξ} :
    {E : Type ℓ} {A : Type κ} {B : Type ξ} {out : B} (first : Result E A) (next : A → Result E B)
    → (first >>= next) ≡ ok out
    → (mid : A) × (first ≡ ok mid) × (next mid ≡ ok out)
>>=-eq-ok (err e) next passed = cc
>>=-eq-ok (ok mid) next passed = (mid, refl, passed)

pub ok-injective {ℓ κ} :
    {E : Type ℓ} {A : Type κ} {a b : A} → ◌≡◌ {A = Result E A} (ok a) (ok b) → a ≡ b
ok-injective h = cc

-- A check that does not fail is passed.
pub passed-eq {ℓ κ} :
    {E : Type ℓ} {A : Type κ} (c : Bool) (e : E) (k : Result E A)
    → c ≡ false
    → (fail_if c e >> k) ≡ k
passed-eq true e k h = cc
passed-eq false e k h = refl
