-- ===== src/Llm/Router/Costs.antt =====
-- The cost that `Call` of internal/llm/router.go reports.
use agent_claw.Base.{
  ℕ, ◌+◌, ◌-◌, ◌<◌, ◌≡◌, ◌≢◌, refl, ap, String, some, arith, lookup, Dict, ltb, len, slice, ◌⧺◌,
  true, Option-cases, inl, inr,
}
use text.Mathlib.TextPositions.{len-append, slice-append_left, slice-append_right, len_utf8-pos}
use Prim.Native.String.len
use Prim.Native.String.{[], ◌∷◌}
use agent_claw.Base.Float.{add}
use agent_claw.Llm.Types.{Pricing, CostMode, standard, cache_hit, cache_write, batch}
use agent_claw.Llm.Pricing.{per_million, advanced_cost, calc_cost, calc_cost_advanced}
use agent_claw.Llm.Router.{cost_model}

add_sub_cancel : (n : ℕ) → n + 10 - 10 ≡ n
add_sub_cancel n = omega arith

sub-zero : (n : ℕ) → n - 0 ≡ n
sub-zero n = omega arith

lt→ltb : (a b : ℕ) → a < b → ltb a b ≡ true
lt→ltb a b h = ground arith

len-pos : (m : String) → m ≢ "" → 0 < len m
len-pos [] h = absurd (h refl)
len-pos (c ∷ s) h = omega (arith, len.cons c s, (len_utf8-pos c).1)

-- A call that a fallback model served is priced under that model's alias.
pub cost_model-fallback : (m : String) → m ≢ "" → cost_model (m ⧺ "(fallback)") ≡ m
unfolding cost_model
cost_model-fallback m h =
    let total : len (m ⧺ "(fallback)") ≡ len m + 10 = len-append m "(fallback)" in
    let tail : slice (m ⧺ "(fallback)") (len m) (len m + 10) ≡ "(fallback)" =
      slice-append_right m "(fallback)" in
    rw total (
      rw (add_sub_cancel (len m))
        (rw (lt→ltb 0 (len m) (len-pos m h), tail) (slice-append_left m "(fallback)")))

no_discount :
    (p : Pricing) (mode : CostMode) (input output : ℕ)
    → mode ≢ batch
    → advanced_cost mode p input output 0
      ≡ add (per_million input p.input_per_1m) (per_million output p.output_per_1m)
unfolding advanced_cost
no_discount p batch input output h = absurd (h refl)
no_discount p standard input output h = refl
no_discount p cache_hit input output h =
    ap (λ n. add (per_million n p.input_per_1m) (per_million output p.output_per_1m))
      (sub-zero input)
no_discount p cache_write input output h =
    ap (λ n. add (per_million n p.input_per_1m) (per_million output p.output_per_1m))
      (sub-zero input)

-- In every mode but the batch mode, a call with no cached tokens costs what `CalcCost` says, also for
-- a model that is not in the table.
pub calc_cost_advanced-uncached :
    (table : Dict Pricing) (model : String) (mode : CostMode) (input output : ℕ)
    → mode ≢ batch
    → calc_cost_advanced table model input output 0 mode ≡ calc_cost table model input output
unfolding calc_cost_advanced calc_cost
calc_cost_advanced-uncached table model mode input output h =
    elim (Option-cases (lookup model table)) [
      | inl e ↦ rw (e, calc_cost_advanced, calc_cost)
      | inr (p, e) ↦
          rw (e, calc_cost_advanced, calc_cost) (ap some (no_discount p mode input output h))
    ]
