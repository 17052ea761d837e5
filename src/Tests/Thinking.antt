-- ===== src/Tests/Thinking.antt =====
-- Runs of internal/usecase/reasoning and internal/llm/pricing.go.
use agent_claw.Base.{◌≡◌, refl, Dict, false, [], ◌∷◌, none, some, true}
use agent_claw.Base.Float.{Decimal}
use agent_claw.Domain.Models.{supports_extended_thinking, tier_for, default_thinking_budget}
use agent_claw.Domain.Types.{phase_plan}
use agent_claw.Port.{LlmRequest, ThinkingConfig}
use agent_claw.Reasoning.{thinking_for, default_policy, should_reason, budget_for}
use agent_claw.Llm.Types.{Pricing}

abbrev config : ThinkingConfig
config = record { enabled = true; budget_tokens = 10000 }

probe : thinking_for "opus" phase_plan "M" ≡ some config
unfolding thinking_for should_reason budget_for default_policy tier_for supports_extended_thinking
    default_thinking_budget
probe = refl

abbrev ask : LlmRequest
ask = record {
  model = "sonnet";
  system = "";
  messages = record { role = "user"; content = "why?" } ∷ [];
  max_tokens = 2048;
  task_id = "t1";
  cache_control = none;
  batch_mode = false;
  thinking = none;
}

abbrev prices : Dict Pricing
prices =
    let free : Decimal = record { mantissa = 0; exponent = 0 } in
    (
      "glm5",
      record {
        input_per_1m = record { mantissa = 5; exponent = 1 };
        output_per_1m = record { mantissa = 2; exponent = 0 };
        cache_write_5m_per_1m = free;
        cache_write_1h_per_1m = free;
        cache_hit_per_1m = free;
        batch_input_per_1m = free;
        batch_output_per_1m = free;
      },
    )
    ∷ []
