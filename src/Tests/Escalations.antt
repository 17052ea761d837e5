-- ===== src/Tests/Escalations.antt =====
-- Runs of `Resolve` of internal/usecase/escalation/chain.go.
use agent_claw.Base.{◌≡◌, refl, ◌⊎◌, true, false, to_upper, trim_space, [], ◌∷◌, none, length}
use agent_claw.Base.Float.{of_nat}
use agent_claw.Domain.Types.{EscalationResult}
use agent_claw.Domain.Models.{
  escalation_chain, escalation_target, tier_for, next_escalation_level, is_human_level,
}
use agent_claw.Port.{LlmResponse, EscalatorRequest, ok}
use agent_claw.Escalation.Types.{Env, timed_out, stored}
use agent_claw.Escalation.Cache
use agent_claw.Escalation.Chain.{resolve, try_levels, try_at}
use agent_claw.Escalation.Chain.Outcomes.{resolve-settles}
use agent_claw.Escalation.Chain.Checkpoints.{checkpoint_left, resolve-checkpoint_left}

abbrev unsure : LlmResponse
unsure = record {
  content = "ESCALATE";
  thinking_content = "";
  input_tokens = 1;
  output_tokens = 1;
  thinking_tokens = 0;
  cache_tokens = 0;
  cost_usd = of_nat 0;
  cost_mode = "standard";
  duration_ms = 5;
  model_used = "sonnet";
}

-- The cache knows the question once, no model is sure, and the human does not answer.
abbrev nobody : Env
nobody = record {
  has_resolved = true;
  has_checkpoint = true;
  search_result = λ t. ok (record { summary = "maybe"; occurrence_count = 1 } ∷ []);
  llm_result = λ t. ok unsure;
  ask_result = λ t. ok 7;
  reply = λ t. timed_out;
  now = λ t. length t;
}

abbrev ask : EscalatorRequest
ask = record {
  question = "Which database?";
  task_context = "A store";
  agent_model = "glm5";
  agent_role = "backend";
  task_id = "t1";
  question_id = "t1-q0";
}

missed : (Cache.check nobody ask.question ask.agent_role []).0 ≡ none
unfolding Cache.check
missed = refl

resolve-checkpoint_left_example :
    stored ask.task_id (resolve nobody ask []).1 ≡ checkpoint_left ask (resolve nobody ask []).0
resolve-checkpoint_left_example = resolve-checkpoint_left nobody ask refl [] missed

abbrev parked : EscalationResult
parked = record { answer = ""; answered_by = ""; resolved = false; needs_human = true }

parks : (resolve nobody ask []).0 ≡ ok parked
unfolding resolve Cache.check try_levels escalation_chain escalation_target tier_for
    next_escalation_level is_human_level try_at to_upper trim_space
parks = refl

resolve-settles_example : (parked.resolved ≡ true) ⊎ (parked.needs_human ≡ true)
resolve-settles_example = resolve-settles nobody ask [] parked parks
