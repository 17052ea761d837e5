-- ===== src/Tests/Phases.antt =====
-- Runs of internal/usecase/phase.
use agent_claw.Base.{
  trimmed_from, ◌≡◌, refl, to_upper, trim_space, sym, ap, ◌+◌, String, Bool, true, false, List, [],
  ◌∷◌, none, length, inl,
}
use agent_claw.Base.Float.{of_nat}
use agent_claw.Domain.Types.{Question, EscalationResult}
use agent_claw.Port.{LlmResponse, Result, ok, err}
use agent_claw.Phase.Types.{Env, World, error_result, slice_panic}
use agent_claw.Phase.Helpers
use agent_claw.Phase.Understand
use agent_claw.Phase.Clarify
use agent_claw.Phase.Plan
use agent_claw.Phase.Plan.{plan_request, prev_guidance}
use agent_claw.Phase.Runner
use agent_claw.Phase.Runner.{started, max_phase_iterations, phase_loop}
use agent_claw.Phase.Understand.Endings.{IsUnderstood, run-IsUnderstood}
use agent_claw.Phase.Clarify.Endings.{IsClarified, Settles, run-IsClarified}
use agent_claw.Phase.Plan.Endings.{IsPlanned, run-IsPlanned}
use agent_claw.Phase.Runner.Endings.{Fits, run-Fits}
use agent_claw.Phase.Runner.Retries.{phase_loop-restarted}

-- Every model answers this text.
abbrev pub says : String → LlmResponse
says text = record {
  content = text;
  thinking_content = "";
  input_tokens = 3;
  output_tokens = 4;
  thinking_tokens = 0;
  cache_tokens = 0;
  cost_usd = of_nat 1;
  cost_mode = "standard";
  duration_ms = 5;
  model_used = "glm5";
}

abbrev by_opus : EscalationResult
by_opus = record { answer = "Postgres"; answered_by = "opus"; resolved = true; needs_human = false }

abbrev pub office : String → Env
office text = record {
  agent = record { id = "a1"; role = "backend"; model = "glm5" };
  project_doc = "A store";
  agent_doc = "";
  has_checkpoint = true;
  load_result = λ t. ok none;
  llm_result = λ t. ok (says text);
  save_error = λ t. none;
  resolve_result = λ t. ok by_opus;
  parse_understanding = λ raw.
      ok (record { understanding = "Build it"; assumptions = []; risks = []; questions = [] });
  parse_plan = λ raw. ok (record { plan = "Write main"; files_to_change = "main.go" ∷ [] });
  cost_text = λ c. "1.000000";
  duration_text = λ d. "1s";
  now = λ t. 1000 + length t;
}

office-Settles : (text : String) → Settles (office text)
office-Settles text t r eq = inl (sym (ap answered_of eq))
  where
    answered_of : Result EscalationResult → Bool
    answered_of (ok x) = x.resolved
    answered_of (err m) = true

abbrev open_question : Question
open_question = record {
  id = "t1-q0";
  text = "Which database?";
  answer = "";
  answered_by = "";
  resolved = false;
  created_at = 0;
}

abbrev pub job : String → List Question → World
job phase questions = record {
  task = record {
    id = "t1";
    title = "Shop";
    description = "A shop";
    agent_id = "a1";
    agent_role = "backend";
    status = "running";
    phase = phase;
    complexity = "M";
    tags = [];
    understanding = "";
    assumptions = [];
    risks = [];
    questions = questions;
    implement_plan = "";
    plan_approved_by = "";
    redirect_count = 0;
    phase_started_at = 0;
    output = "";
    input_tokens = 0;
    output_tokens = 0;
    cost_usd = of_nat 0;
    created_at = 0;
    updated_at = 0;
  };
  trace = [];
}

run-IsUnderstood_example :
    let w = job "understand" [] in
    IsUnderstood
      (office "{}")
      w.task
      (Understand.run (office "{}") none w).0
      (Understand.run (office "{}") none w).1
run-IsUnderstood_example = run-IsUnderstood (office "{}") none (job "understand" [])

run-IsClarified_example :
    let w = job "clarify" (open_question ∷ []) in
    IsClarified
      (office "{}")
      w.task.questions
      w.task.redirect_count
      (Clarify.run (office "{}") w).0
      (Clarify.run (office "{}") w).1
run-IsClarified_example =
    run-IsClarified (office "{}") (job "clarify" (open_question ∷ [])) (office-Settles "{}")

run-IsPlanned_example :
    let w = job "plan" [] in
    let e = office "REDIRECT: use a queue" in
    IsPlanned e w.task (Plan.run e none w).0 (Plan.run e none w).1
run-IsPlanned_example = run-IsPlanned (office "REDIRECT: use a queue") none (job "plan" [])

run-Fits_example :
    Fits
      (office "APPROVED")
      max_phase_iterations
      (started (office "APPROVED") (job "" [])).task
      (Runner.run (office "APPROVED") (job "" [])).0
      (Runner.run (office "APPROVED") (job "" [])).1
run-Fits_example = run-Fits (office "APPROVED") (job "" []) (office-Settles "APPROVED")

redirects : (Plan.run (office "REDIRECT: use a queue") none (job "plan" [])).0.restarted ≡ true
unfolding Plan.run to_upper trim_space Helpers.save Helpers.dispatch_event
redirects = refl

phase_loop-restarted_example :
    let e = office "REDIRECT: use a queue" in
    let w = job "plan" [] in
    (phase_loop e 3 none w ≡ phase_loop e 2 none (Plan.run e none w).1)
    × (plan_request e (Plan.run e none w).1.task (prev_guidance none) ≡ plan_request e w.task "")
phase_loop-restarted_example =
    phase_loop-restarted (office "REDIRECT: use a queue") 2 none (job "plan" []) refl redirects

-- In upper case the letters before the word have three bytes instead of two: its place is beyond the end.
panics :
    (Plan.run (office "ɐɐɐɐɐɐɐɐɐɐREDIRECT: use") none (job "plan" [])).0 ≡ error_result slice_panic
unfolding Plan.run to_upper trim_space Helpers.save Helpers.dispatch_event trimmed_from
panics = refl
