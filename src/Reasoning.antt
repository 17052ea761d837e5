-- ===== src/Reasoning.antt =====
-- internal/usecase/reasoning: when a request asks for extended thinking, and with what budget.
pub mod Laws
use agent_claw.Base.{
  ℕ, String, Bool, true, false, Option, none, some, ◌==◌, leb, eqb, ltb, if◌then◌else◌,
}
use agent_claw.Domain.Models.{
  tier_for, tier_worker, tier_smart, tier_expert, supports_extended_thinking,
  default_thinking_budget,
}
use agent_claw.Domain.Types.{ExecutionPhase}
use agent_claw.Port.{ThinkingConfig, LlmRequest}

-- `Policy`.
pub record Policy : Type 0 where
  pub min_complexity_for_worker : String
  pub min_complexity_for_smart : String
  pub expert_always_thinks : Bool

-- `DefaultPolicy`.
unfoldable pub default_policy : Policy
default_policy = record {
  min_complexity_for_worker = "L";
  min_complexity_for_smart = "M";
  expert_always_thinks = true;
}

-- `complexityRank`.
unfoldable pub complexity_rank : String → ℕ
complexity_rank c = if c == "S" then 1 else if c == "M" then 2 else if c == "L" then 3 else 0

-- `complexityAtLeast`.
unfoldable pub complexity_at_least : String → String → Bool
complexity_at_least actual required = leb (complexity_rank required) (complexity_rank actual)

-- `ShouldReason`.
unfoldable pub should_reason : Policy → String → ExecutionPhase → String → Bool
should_reason p model phase complexity =
    let tier = tier_for model in
    if supports_extended_thinking model
    then (if leb tier_expert tier
        then p.expert_always_thinks
        else if eqb tier tier_smart
        then complexity_at_least complexity p.min_complexity_for_smart
        else if eqb tier tier_worker
        then complexity_at_least complexity p.min_complexity_for_worker
        else false)
    else false

-- `BudgetFor`.
unfoldable pub budget_for : Policy → String → ExecutionPhase → ℕ
budget_for p model phase = default_thinking_budget model phase

-- `ThinkingFor`.
unfoldable pub thinking_for : String → ExecutionPhase → String → Option ThinkingConfig
unfolding should_reason budget_for default_policy
thinking_for model phase complexity =
    let budget = budget_for default_policy model phase in
    if should_reason default_policy model phase complexity
    then (if leb budget 0 then none else some (record { enabled = true; budget_tokens = budget }))
    else none

think_if : LlmRequest → Option ThinkingConfig → LlmRequest
think_if req none = req
think_if req (some cfg) = record req { thinking = some cfg }

enrich : LlmRequest → ExecutionPhase → String → Option ThinkingConfig → LlmRequest
unfolding think_if thinking_for
enrich req phase complexity none = think_if req (thinking_for req.model phase complexity)
enrich req phase complexity (some t) = req

-- `WithThinking`.
unfoldable pub with_thinking : LlmRequest → ExecutionPhase → String → LlmRequest
unfolding enrich
with_thinking req phase complexity = enrich req phase complexity req.thinking

enrich_by : LlmRequest → ExecutionPhase → String → Policy → Option ThinkingConfig → LlmRequest
unfolding should_reason budget_for
enrich_by req phase complexity policy none =
    let budget = budget_for policy req.model phase in
    if should_reason policy req.model phase complexity
    then (if leb budget 0
        then req
        else record req { thinking = some (record { enabled = true; budget_tokens = budget }) })
    else req
enrich_by req phase complexity policy (some t) = req

-- `WithThinkingPolicy`.
unfoldable pub with_thinking_policy : LlmRequest → ExecutionPhase → String → Policy → LlmRequest
unfolding enrich_by
with_thinking_policy req phase complexity policy =
    enrich_by req phase complexity policy req.thinking
