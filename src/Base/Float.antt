-- ===== src/Base/Float.antt =====
-- `float64` without its rounding. A price is the decimal that a file writes. An amount is kept as the
-- expression that the machine evaluates, so equal expressions are equal floats, and nothing is
-- claimed of how the operations round.
use Prim.Native.Nat.{ℕ}
use mathlib.Core.Bool.{Bool}
use agent_claw.Base.Tests.{eqb}

-- mantissa / 10 ^ exponent.
pub record Decimal : Type 0 where
  pub mantissa : ℕ
  pub exponent : ℕ

abbrev pub is_zero : Decimal → Bool
is_zero d = eqb d.mantissa 0

abbrev pub decimal_zero : Decimal
decimal_zero = record { mantissa = 0; exponent = 0 }

pub data Float64 : Type 0 where
  of_nat : ℕ → Float64
  of_decimal : Decimal → Float64
  add : Float64 → Float64 → Float64
  mul : Float64 → Float64 → Float64
  div : Float64 → Float64 → Float64
