-- ===== src/Domain/Models.antt =====
-- internal/domain/model.go: model names, tiers and the tables over them.
use agent_claw.Base.{
  ℕ, zero, suc, String, Bool, ◌||◌, List, [], ◌∷◌, ◌++◌, Option, none, some, ◌==◌, leb, ltb, eqb,
  if◌then◌else◌,
}

-- `ModelTier` is an `int` of which only the five constants occur.
abbrev pub ModelTier : Type 0
ModelTier = ℕ

abbrev pub tier_flash : ModelTier
tier_flash = 10

abbrev pub tier_worker : ModelTier
tier_worker = 20

abbrev pub tier_smart : ModelTier
tier_smart = 30

abbrev pub tier_expert : ModelTier
tier_expert = 40

abbrev pub tier_human : ModelTier
tier_human = 50

abbrev pub model_opus : String
model_opus = "opus"

abbrev pub model_sonnet : String
model_sonnet = "sonnet"

abbrev pub model_haiku : String
model_haiku = "haiku"

abbrev pub model_minimax : String
model_minimax = "minimax"

abbrev pub model_minimax_hs : String
model_minimax_hs = "minimax-highspeed"

abbrev pub model_kimi : String
model_kimi = "kimi"

abbrev pub model_glm5 : String
model_glm5 = "glm5"

abbrev pub model_glm_flash : String
model_glm_flash = "glm-flash"

abbrev pub model_human : String
model_human = "human"

abbrev pub model_cache : String
model_cache = "cache"

-- `TierFor`.
unfoldable pub tier_for : String → ModelTier
tier_for model =
    if model == model_glm_flash
    then tier_flash
    else if (model == model_haiku)
        || (model == model_glm5)
        || (model == model_minimax)
        || (model == model_minimax_hs)
        || (model == model_kimi)
    then tier_worker
    else if model == model_sonnet
    then tier_smart
    else if model == model_opus
    then tier_expert
    else if model == model_human
    then tier_human
    else tier_worker

-- `EscalationTarget`.
unfoldable pub escalation_target : String → String
escalation_target model =
    let tier = tier_for model in
    if leb tier tier_worker
    then model_sonnet
    else if eqb tier tier_smart
    then model_opus
    else if leb tier_expert tier
    then model_human
    else model_sonnet

-- `NextEscalationLevel`.
unfoldable pub next_escalation_level : String → String
next_escalation_level level =
    if level == model_sonnet
    then model_opus
    else if level == model_opus
    then model_human
    else model_human

-- `IsHumanLevel`.
unfoldable pub is_human_level : String → Bool
is_human_level model = model == model_human

-- `CanEscalate`.
unfoldable pub can_escalate : String → Bool
can_escalate model = ltb (tier_for model) tier_human

-- The loop of `EscalationChain`, `none` when the fuel runs out.
unfoldable pub climb : ℕ → String → List String → Option (List String)
climb zero level chain = none
climb (suc fuel) level chain =
    let rest = climb fuel (next_escalation_level level) (chain ++ level ∷ []) in
    if level == model_human then some chain else rest

abbrev finish : Option (List String) → List String
finish none = []
finish (some chain) = chain ++ model_human ∷ []

-- `EscalationChain`. Three rounds are enough from any level.
unfoldable pub escalation_chain : String → List String
unfolding climb
escalation_chain from_model =
    let target = escalation_target from_model in
    if target == model_human then model_human ∷ [] else finish (climb 3 target [])

-- `SupervisorModel`.
unfoldable pub supervisor_model : String → String
supervisor_model worker_model =
    let tier = tier_for worker_model in if leb tier tier_smart then model_opus else model_opus

-- `WorkerModelForComplexity`.
unfoldable pub worker_model_for_complexity : String → String
worker_model_for_complexity complexity =
    if complexity == "S"
    then model_glm_flash
    else if complexity == "M"
    then model_minimax
    else if complexity == "L"
    then model_sonnet
    else model_minimax

-- `SupportsExtendedThinking`.
unfoldable pub supports_extended_thinking : String → Bool
supports_extended_thinking model = (model == model_opus) || (model == model_sonnet)

-- `DefaultThinkingBudget`; a phase is the string of its constant.
unfoldable pub default_thinking_budget : String → String → ℕ
default_thinking_budget model phase =
    let tier = tier_for model in
    if leb tier_expert tier
    then (if phase == "plan"
        then 10000
        else if phase == "understand"
        then 8000
        else if phase == "implement"
        then 6000
        else 5000)
    else if eqb tier tier_smart
    then (if phase == "plan"
        then 4000
        else if phase == "understand"
        then 4000
        else if phase == "implement"
        then 3000
        else 2000)
    else if eqb tier tier_worker
    then (if phase == "implement" then 2000 else 0)
    else 0

-- `SupportsPromptCache`.
unfoldable pub supports_prompt_cache : String → Bool
supports_prompt_cache model =
    (model == model_opus) || (model == model_sonnet) || (model == model_haiku)

-- `CacheTTLForContent`.
unfoldable pub cache_ttl_for_content : String → String
cache_ttl_for_content content_type =
    if (content_type == "system")
      || (content_type == "role_identity")
      || (content_type == "project_doc")
    then "1h"
    else "ephemeral"
