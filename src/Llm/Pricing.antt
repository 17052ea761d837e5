-- ===== src/Llm/Pricing.antt =====
-- internal/llm/pricing.go: the cost of a call from the table of prices, and the table from the file.
use agent_claw.Base.{ℕ, ◌-◌, String, Option, none, some, Dict, lookup, if◌then◌else◌}
use agent_claw.Base.Float.{Decimal, Float64, is_zero, of_nat, of_decimal, add, mul, div}
use agent_claw.Base.Int64.{is_pos64}
use agent_claw.Llm.Types.{CostMode, standard, cache_write, cache_hit, batch, Pricing}

-- float64(n) / 1e6 * price.
pub per_million : ℕ → Decimal → Float64
per_million n price = mul (div (of_nat n) (of_nat 1_000_000)) (of_decimal price)

-- The price in the first place, or the one in the second if the first is 0.
or_else : Decimal → Decimal → Decimal
or_else price fallback = if is_zero price then fallback else price

-- `CalcCost`; `none` is `ErrModelNotFound`.
unfoldable pub calc_cost : Dict Pricing → String → ℕ → ℕ → Option Float64
unfolding per_million
calc_cost table model input output = elim (lookup model table) [
  | none ↦ none
  | some p ↦ some (add (per_million input p.input_per_1m) (per_million output p.output_per_1m))
]

-- The price of the cached tokens.
cache_price : CostMode → Pricing → Decimal
cache_price cache_hit p = or_else p.cache_hit_per_1m p.input_per_1m
cache_price cache_write p = or_else p.cache_write_5m_per_1m p.input_per_1m
cache_price _ p = p.input_per_1m

-- The cases of the `switch` on the mode.
cached_cost : CostMode → Pricing → ℕ → ℕ → ℕ → Float64
unfolding per_million cache_price or_else
cached_cost mode p input output cache_tokens =
    let regular = per_million (input - cache_tokens) p.input_per_1m in
    let with_cache =
      if is_pos64 cache_tokens
      then add regular (per_million cache_tokens (cache_price mode p))
      else regular in
    add with_cache (per_million output p.output_per_1m)

unfoldable pub advanced_cost : CostMode → Pricing → ℕ → ℕ → ℕ → Float64
unfolding per_million cached_cost or_else
advanced_cost batch p input output cache_tokens =
    add (per_million input (or_else p.batch_input_per_1m p.input_per_1m))
      (per_million output (or_else p.batch_output_per_1m p.output_per_1m))
advanced_cost cache_hit p input output cache_tokens =
    cached_cost cache_hit p input output cache_tokens
advanced_cost cache_write p input output cache_tokens =
    cached_cost cache_write p input output cache_tokens
advanced_cost standard p input output cache_tokens =
    add (per_million input p.input_per_1m) (per_million output p.output_per_1m)

-- `CalcCostAdvanced`; the token counts are not negative.
unfoldable pub calc_cost_advanced : Dict Pricing → String → ℕ → ℕ → ℕ → CostMode → Option Float64
unfolding advanced_cost
calc_cost_advanced table model input output cache_tokens mode = elim (lookup model table) [
  | none ↦ none
  | some p ↦ some (advanced_cost mode p input output cache_tokens)
]
