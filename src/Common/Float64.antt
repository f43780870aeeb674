-- ===== src/Common/Float64.antt =====
-- Go's `float64` as an interface: the type and the operations that the service applies to it, among
-- them those of package `math`. No law is assumed here; a theorem that needs one states it.
use mathlib.Core.Bool.{Bool}
use our_ne_zt_core.Common.Int64.{Int64}

pub record Float64 (F : Type 0) : Type 0 where
  pub zero_value : F
  pub one : F
  pub of_int64 : Int64 → F
  pub add : F → F → F
  pub sub : F → F → F
  pub mul : F → F → F
  pub div : F → F → F
  pub lt : F → F → Bool
  pub le : F → F → Bool
  -- `math.Pow`, and `int64(math.Round(x))`.
  pub pow : F → F → F
  pub round_int64 : F → Int64
  pub is_nan : F → Bool
  pub is_inf : F → Bool
