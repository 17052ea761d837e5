-- ===== src/Tests/Orchestrators.antt =====
-- Runs of internal/usecase/orchestrator.
use agent_claw.Base.{itoa, List, [], ◌∷◌, none, itoa, ◌==◌, if◌then◌else◌}
use agent_claw.Domain.Types.{Task}
use agent_claw.Port.{ok}
use agent_claw.Orchestrator.Loop
use agent_claw.Orchestrator.Parallel
use agent_claw.Orchestrator.Parallel.{Memory}
use agent_claw.Orchestrator.Hierarchical
use agent_claw.Orchestrator.Hierarchical.{SubtaskDef}
use agent_claw.Tests.Phases.{office, job, says}

-- The second goroutine's model redirects; the others' approve.
abbrev workers : Parallel.Env
workers = record {
  phases = λ i. office (if itoa i == "1" then "REDIRECT: use a queue" else "APPROVED");
  in_order = λ errs. errs;
  started_at = 1;
  ended_at = 9;
}

abbrev memory : Memory
memory = record { project_doc = "A store"; agent_doc = "" }

abbrev two_tasks : List Task
two_tasks = (job "" []).task ∷ (job "" []).task ∷ []

abbrev half : SubtaskDef
half = record { title = "Half"; role = "coding"; complexity = "S"; model = "glm5" }

abbrev managers : Hierarchical.Env
managers = record {
  llm_result = λ t. ok (says "[]");
  save_error = λ t. none;
  parse_subtasks = λ raw. ok (half ∷ half ∷ []);
  subtasks_text = λ defs. "[]";
  generate_id = λ t. "t2";
  now = 5;
}
