-- ===== src/Common/Int32.antt =====
-- Go's `int32`, as a two's-complement pattern below 2 ^ 32, and its conversions from and to `int`.
use Prim.Native.Nat.{ℕ, ◌+◌, ◌-◌, ◌%◌, ◌^◌, ◌<◌}
use mathlib.Core.Path.{◌≡◌}
use mathlib.Core.Logic.{◌⊎◌}
use native.Mathlib.Omega.{arith}
use our_ne_zt_core.Common.Tests.{ltb, if◌then◌else◌}
use our_ne_zt_core.Common.Int64.{Int64, modulus}

abbrev pub Int32 : Type 0
Int32 = ℕ

unfoldable pub to_int : Int32 → Int64
to_int a = if ltb a (2 ^ 31) then a else a + (modulus - 2 ^ 32)

unfoldable pub to_int32 : Int64 → Int32
to_int32 a = a % 2 ^ 32

-- The `int` values that an `int32` holds.
abbrev pub FitsInt32 : Int64 → Type 0
FitsInt32 a = (a < 2 ^ 31) ⊎ ((modulus - 2 ^ 31 < a + 1) × (a < modulus))

pub to_int-to_int32 : (a : Int64) → FitsInt32 a → to_int (to_int32 a) ≡ a
unfolding to_int to_int32
to_int-to_int32 a h = ground arith

pub to_int32-to_int : (a : Int32) → a < 2 ^ 32 → to_int32 (to_int a) ≡ a
unfolding to_int to_int32
to_int32-to_int a h = ground arith
