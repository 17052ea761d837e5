-- ===== src/Tests/Models.antt =====
-- Runs of internal/domain/model.go.
use agent_claw.Base.{◌≡◌, refl, [], ◌∷◌}
use agent_claw.Domain.Models.{escalation_chain, tier_for, escalation_target, next_escalation_level}

chain_of_worker : escalation_chain "glm5" ≡ "sonnet" ∷ "opus" ∷ "human" ∷ []
unfolding escalation_chain escalation_target next_escalation_level tier_for
chain_of_worker = refl
