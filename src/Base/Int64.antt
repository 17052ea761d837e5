-- ===== src/Base/Int64.antt =====
-- `int64` as a bit pattern below 2 ^ 64; the patterns from 2 ^ 63 on stand for the negative values.
use Prim.Native.Nat.{ℕ, ◌+◌, ◌-◌, ◌%◌, ◌^◌}
use mathlib.Core.Bool.{Bool, ◌&&◌}
use Prim.Native.String.{String, ◌++◌}
use agent_claw.Base.Tests.{ltb, if◌then◌else◌}
use agent_claw.Base.Text.{itoa}

abbrev pub add64 : ℕ → ℕ → ℕ
add64 a b = (a + b) % 2 ^ 64

-- `a > 0`.
abbrev pub is_pos64 : ℕ → Bool
is_pos64 a = ltb 0 a && ltb a (2 ^ 63)

-- `%d` of `fmt`.
unfoldable pub itoa64 : ℕ → String
itoa64 a = if ltb a (2 ^ 63) then itoa a else "-" ++ itoa (2 ^ 64 - a)
