-- ===== src/Tests/Fixes.antt =====
-- Runs of internal/usecase/orchestrator/test_fix.go.
use agent_claw.Base.{◌-◌, [], ◌∷◌, length}
use agent_claw.Port.{ok}
use agent_claw.TestFix.{Env, run}
use agent_claw.TestFix.Endings.{Ends, run-Ends}
use agent_claw.Tests.Phases.{office, job, says}

-- The tests fail whatever the model answers.
abbrev workshop : Env
workshop = record {
  task = (job "" []).task;
  work_dir = "/src";
  test_cmd = "go";
  test_args = "test" ∷ "./..." ∷ [];
  test_result = λ t. ok (record { stdout = "FAIL"; stderr = ""; exit_code = 1 });
  llm_result = λ t. ok (says "fixed");
  now = λ t. length t;
}

run-Ends_example :
    Ends workshop 3
      (3 - 1)
      []
      (run workshop (office "APPROVED") 3 (job "" []) []).0
      (run workshop (office "APPROVED") 3 (job "" []) []).1
run-Ends_example = run-Ends workshop (office "APPROVED") 3 (job "" [])
