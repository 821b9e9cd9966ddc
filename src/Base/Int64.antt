-- ===== src/Base/Int64.antt =====
-- Go's `int` on a 64-bit machine, as its bit pattern: `+` and `-` wrap, `<` reads the sign.
use Prim.Native.Nat.{ℕ, ◌+◌, ◌-◌, ◌%◌, ◌^◌}
use mathlib.Core.Bool.{Bool, ◌||◌}
use accel.Base.Tests.{ltb, leb, ◌==◌}

abbrev pub add64 : ℕ → ℕ → ℕ
add64 a b = (a + b) % 2 ^ 64

abbrev pub sub64 : ℕ → ℕ → ℕ
sub64 a b = (a + 2 ^ 64 - b) % 2 ^ 64

abbrev pub slt : ℕ → ℕ → Bool
slt a b = ltb ((a + 2 ^ 63) % 2 ^ 64) ((b + 2 ^ 63) % 2 ^ 64)

-- `a <= 0`
abbrev pub not_positive : ℕ → Bool
not_positive a = a == 0 || leb (2 ^ 63) a
