-- ===== src/Llm/Router.antt =====
-- internal/llm/router.go: a call through the circuit breaker, the provider and the fallback chain,
-- and its cost.
pub mod Serving
pub mod Calls
pub mod Settling
pub mod Wedged
pub mod Costs
use agent_claw.Base.{
  ℕ, ◌-◌, ◌/◌, String, ◌&&◌, List, [], ◌∷◌, Option, none, some, Dict, lookup, insert, State, pure,
  gets, modify, ◌>>=◌, ◌>>◌, ◌==◌, ◌⧺◌, len, slice, ltb, if◌then◌else◌,
}
use agent_claw.Base.Float.{Float64, of_nat}
use agent_claw.Base.Int64.{add64}
use agent_claw.Llm.Errors.{Error, text, wrap, is_permanent_error, error_text}
use agent_claw.Llm.Provider.{LlmProvider, llm_providers, provider_for_model, fallback_chain_from}
use agent_claw.Llm.Breaker.{
  Breaker, Rejection, still_open, probe_in_progress, allow, record_success, record_failure,
  get_breaker,
}
use agent_claw.Llm.Types.{
  Request, Response, CostMode, standard, batch, Pricing, Outcome, ok, err, panic, Env, Router,
}
use agent_claw.Llm.Http.{call_openai_compat, call_anthropic}
use agent_claw.Llm.Pricing.{calc_cost, calc_cost_advanced}
use agent_claw.Llm.Fallback.{call_with_fallback}

error_or_nil : Option Error → String
error_or_nil none = "<nil>"
error_or_nil (some e) = error_text e

-- The text of an error of `allow`.
rejection_text : Env → Rejection → String
unfolding error_or_nil
rejection_text e (still_open last_err retry_after) =
    "circuit open for provider (last error: "
    ⧺ error_or_nil last_err
    ⧺ "), retry after "
    ⧺ e.show_duration retry_after
rejection_text e probe_in_progress = "circuit half-open, probe in progress"

-- `r.breakers.get(provider).allow()`: the breaker is shared, so what the method changes is stored.
pub allow_request : String → ℕ → Router → Option Rejection × Router
allow_request provider now r =
    let (b, breakers) = get_breaker provider r.breakers in
    let (b', rejection) = allow now b in
    (rejection, record r { breakers = insert provider b' breakers })

-- `cb.recordFailure(err)` and `cb.recordSuccess()` on the breaker of the provider.
on_breaker : String → (Breaker → Breaker) → State Router (Unit {0})
on_breaker provider f = modify (λ (r : Router).
    let (b, breakers) = get_breaker provider r.breakers in
    record r { breakers = insert provider (f b) breakers })

unfoldable pub or_zero : Option ℕ → ℕ
or_zero none = 0
or_zero (some n) = n

-- `r.stats.calls[provider]++`.
count_call : String → State Router (Unit {0})
unfolding or_zero
count_call provider = modify (λ (r : Router). record r {
  calls = insert provider (add64 (or_zero (lookup provider r.calls)) 1) r.calls;
})

-- The pricing alias of the model that served a call: without the suffix of a fallback.
unfoldable pub cost_model : String → String
cost_model model_used =
    let idx = len model_used - len "(fallback)" in
    if ltb 0 idx && slice model_used idx (len model_used) == "(fallback)"
    then slice model_used 0 idx
    else model_used

or_free : Option Float64 → Float64
or_free none = of_nat 0
or_free (some cost) = cost

cost_in : CostMode → Dict Pricing → String → Response → Float64
unfolding or_free
cost_in standard table model resp =
    or_free (calc_cost table model resp.input_tokens resp.output_tokens)
cost_in mode table model resp =
    or_free
      (calc_cost_advanced table model resp.input_tokens resp.output_tokens resp.cache_tokens mode)

-- `costCalc`.
unfoldable pub cost_calc : Dict Pricing → String → Response → Float64
unfolding cost_in
cost_calc table model resp = cost_in resp.cost_mode table model resp

-- The end of `Call` on success, from the response of the provider.
priced : Dict Pricing → Request → ℕ → Response → Response
unfolding cost_calc
priced table req duration resp =
    let timed = record resp { duration_ms = duration } in
    let moded = if req.batch_mode then record timed { cost_mode = batch } else timed in
    record moded { cost_usd = cost_calc table (cost_model resp.model_used) moded }

with_chain : Env → Request → Error → List String → State Router (Outcome Response)
with_chain e req e' [] = pure (err e')
with_chain e req e' (m ∷ rest) = call_with_fallback e req (m ∷ rest)

-- `callOpenAICompat` with the fallback chain behind it.
fall_back : Env → Request → Outcome Response → State Router (Outcome Response)
unfolding with_chain
fall_back e req (ok resp) = pure (ok resp)
fall_back e req panic = pure panic
fall_back e req (err e') =
    if is_permanent_error e'
    then pure (err e')
    else with_chain e req e' (fallback_chain_from req.model)

unfoldable pub serve : Env → Request → LlmProvider → State Router (Outcome Response)
unfolding fall_back
serve e req p =
    if p.is_anthropic
    then call_anthropic e req p
    else do result ← call_openai_compat e req p; fall_back e req result

-- What `Call` does with the result: the breaker, the counters, the cost.
unfoldable pub settle :
    Env → Dict Pricing → Request → String → ℕ → Outcome Response → State Router (Outcome Response)
unfolding on_breaker count_call priced
settle e table req provider start (err e') = do
  now ← gets (λ r. e.now r.trace)
  if is_permanent_error e'
      then pure (err e')
      else do on_breaker provider (record_failure now e'); pure (err e')
settle e table req provider start panic = pure panic
settle e table req provider start (ok resp) = do
  on_breaker provider record_success
  count_call provider
  now ← gets (λ r. e.now r.trace)
  pure (ok (priced table req ((now - start) / 1_000_000) resp))

-- The part of `Call` behind the breaker, by the entry of the registry. A request for an alias that no
-- provider has ends after the breaker has let it through.
unfoldable pub dispatch :
    Env → Dict Pricing → Request → String → ℕ → Option LlmProvider → State Router (Outcome Response)
dispatch e table req provider start none =
    pure (err (text ("unknown llm model alias: " ⧺ req.model)))
dispatch e table req provider start (some p) = do
  result ← serve e req p
  settle e table req provider start result

-- The part of `Call` after `allow`.
unfoldable pub after_allow :
    Env → Dict Pricing → Request → String → ℕ → Option Rejection → State Router (Outcome Response)
unfolding rejection_text
after_allow e table req provider start (some rejection) =
    pure (err (wrap ("llm " ⧺ provider) (text (rejection_text e rejection))))
after_allow e table req provider start none =
    dispatch e table req provider start (lookup req.model llm_providers)

-- `Call`.
unfoldable pub call : Env → Dict Pricing → Request → State Router (Outcome Response)
unfolding allow_request
call e table req = do
  start ← gets (λ r. e.now r.trace)
  let provider = provider_for_model req.model
  rejected ← allow_request provider start
  after_allow e table req provider start rejected
