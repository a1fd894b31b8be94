-- ===== src/Base/Int.antt =====
-- The C types `int` and `unsigned int`: 32 bits, two's complement.
use Prim.Native.Nat.{ℕ, zero, ◌-◌, ◌^◌, ◌<◌}
use mathlib.Core.Path.{◌≡◌}
use mathlib.Core.Bool.{Bool, true, false}
use native.Mathlib.Omega.{arith}
use cs4411_p.Base.Tests.{ltb, if◌then◌else◌}

-- A value of type `int`: `negsuc n` is -(n + 1).
pub data ℤ : Type 0 where
  pos : ℕ → ℤ
  negsuc : ℕ → ℤ

abbrev pub u32_mod : ℕ
u32_mod = 2 ^ 32

-- -1, by which the methods of a block store report an error.
abbrev pub minus_one : ℤ
minus_one = negsuc 0

-- The test `r < 0`.
abbrev pub is_neg : ℤ → Bool
is_neg (pos n) = false
is_neg (negsuc n) = true

-- The test `r == -1`.
abbrev pub is_minus_one : ℤ → Bool
is_minus_one (negsuc zero) = true
is_minus_one _ = false

-- The conversion of an `unsigned int` to `int`.
unfoldable pub to_int : ℕ → ℤ
to_int w = if ltb w (2 ^ 31) then pos w else negsuc (2 ^ 32 - w - 1)

pub to_int-pos : (w : ℕ) → w < 2 ^ 31 → to_int w ≡ pos w
unfolding to_int
to_int-pos w h = ground arith
