-- ===== src/Reasoning/Laws.antt =====
-- What the policy of internal/usecase/reasoning decides.
use agent_claw.Base.{
  ◌<◌, ◌≤◌, ◌≡◌, refl, String, true, false, some, inl, inr, arith, Option-cases, text-cases, ◌==◌,
  if◌then◌else◌,
}
use agent_claw.Domain.Models.{
  tier_for, supports_extended_thinking, default_thinking_budget, model_opus, model_sonnet,
}
use agent_claw.Domain.Types.{ExecutionPhase}
use agent_claw.Port.{ThinkingConfig, LlmRequest}
use agent_claw.Reasoning.{
  Policy, default_policy, should_reason, budget_for, thinking_for, with_thinking,
  with_thinking_policy, complexity_at_least,
}

-- The decision of any policy: the expert model as the policy says, the smart model from the policy's
-- complexity on, and no other model ever. The threshold for workers decides nothing.
pub should_reason_form :
    (p : Policy) (model : String) (phase : ExecutionPhase) (complexity : String)
    → should_reason p model phase complexity ≡ (
        if model == model_opus
        then p.expert_always_thinks
        else if model == model_sonnet
        then complexity_at_least complexity p.min_complexity_for_smart
        else false)
unfolding should_reason supports_extended_thinking tier_for
should_reason_form p model phase complexity = elim (text-cases model model_opus) [
  | inl e ↦ rw e refl
  | inr ne ↦ elim (text-cases model model_sonnet) [ inl e ↦ rw e refl | inr nf ↦ rw (ne, nf) ]
]

-- `WithThinking` is `WithThinkingPolicy` with the default policy.
pub with_thinking-eq-policy :
    (req : LlmRequest) (phase : ExecutionPhase) (complexity : String)
    → with_thinking req phase complexity ≡ with_thinking_policy req phase complexity default_policy
unfolding with_thinking with_thinking_policy
with_thinking-eq-policy req phase complexity = elim (Option-cases req.thinking) [
  | inl e ↦ ground (arith, e)
  | inr (t, e) ↦ ground (arith, e)
]

budget-le : (model : String) (phase : ExecutionPhase) → default_thinking_budget model phase ≤ 10000
unfolding default_thinking_budget
budget-le model phase = ground arith

-- The thinking that is turned on is enabled, has a positive budget, and is for the models that
-- support it.
pub thinking_for_sound :
    (model : String) (phase : ExecutionPhase) (complexity : String) (cfg : ThinkingConfig)
    → thinking_for model phase complexity ≡ some cfg
    → (cfg.enabled ≡ true)
      × (0 < cfg.budget_tokens)
      × (cfg.budget_tokens ≤ 10000)
      × (supports_extended_thinking model ≡ true)
unfolding thinking_for should_reason budget_for
thinking_for_sound model phase complexity cfg h = ground (arith, budget-le model phase)
