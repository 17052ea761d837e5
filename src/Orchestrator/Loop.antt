-- ===== src/Orchestrator/Loop.antt =====
-- internal/usecase/orchestrator/loop.go: implement, review, improve. The state is that of the phase
-- runner: the task, and the trace with the calls of this orchestrator among those of the phases.
pub mod Endings
use agent_claw.Base.{
  ℕ, zero, suc, ◌+◌, String, Bool, false, List, [], ◌∷◌, Option, none, some, ◌⧺◌, trimmed_from,
  find?, starts_with, leb, if◌then◌else◌, itoa, to_upper, trim_space, truncate_with, State, pure,
  ◌>>=◌, ◌>>◌,
}
use agent_claw.Domain.Models.{model_opus}
use agent_claw.Domain.Types.{Task, TaskResult, Event, status_channel, phase_plan, phase_implement}
use agent_claw.Port.{LlmRequest, LlmResponse, Result, ok, err}
use agent_claw.Reasoning.{with_thinking}
use agent_claw.Phase.Types.{
  Env, Act, World, call_llm, save_task, dispatch_now, perform, asking, update, slice_panic,
}
use agent_claw.Phase.Runner
use agent_claw.Phase.Runner.{Outcome}

abbrev pub review_system : String
review_system =
    "Review this implementation output for quality, correctness,\nand completeness. Respond APPROVED or IMPROVE: <guidance>"

-- `NewLoopOrchestrator`: the limit that it keeps, where 0 stands for every limit that is not positive.
unfoldable pub max_loops_of : ℕ → ℕ
max_loops_of n = if leb n 0 then 3 else n

-- The request for a review.
unfoldable pub review_request : Task → TaskResult → LlmRequest
review_request task r =
    with_thinking
      (record {
        model = model_opus;
        system = review_system;
        messages =
            record {
              role = "user";
              content =
                  "Task: "
                  ⧺ task.title
                  ⧺ "\n\nOutput (first 2000 chars):\n"
                  ⧺ truncate_with "..." r.output 8000
                  ⧺ "\n\nImplementation Plan:\n"
                  ⧺ task.implement_plan;
            }
            ∷ [];
        max_tokens = 2048;
        task_id = task.id;
        cache_control = none;
        batch_mode = false;
        thinking = none;
      })
      phase_plan task.complexity

-- Whether a verdict approves the output, and the guidance that it gives else.
unfoldable pub is_approved : String → Bool
is_approved verdict = starts_with (to_upper verdict) "APPROVED"

-- None where the slice panics, as in the plan phase.
unfoldable pub guidance_of : String → Option String
unfolding trimmed_from
guidance_of verdict = elim (find? (to_upper verdict) "IMPROVE:") [
  | none ↦ some verdict
  | some i ↦ trimmed_from verdict (i + 8)
]

-- What the feedback changes in the task.
unfoldable pub improved : ℕ → String → Task → Task
improved attempt guidance task = record task {
  description =
      task.description ⧺ "\n\n---\nOpus feedback (attempt " ⧺ itoa attempt ⧺ "):\n" ⧺ guidance;
  phase = phase_implement;
  implement_plan =
      task.implement_plan ⧺ "\n\nOpus feedback (attempt " ⧺ itoa attempt ⧺ "):\n" ⧺ guidance;
}

notify : Env → String → String → Act (Unit {0})
notify e type message w =
    perform
      (dispatch_now (record {
        type = type;
        channel = status_channel;
        task_id = w.task.id;
        agent_id = "";
        agent_role = "";
        model = "";
        payload = ("message", message) ∷ [];
        occurred_at = e.now w.trace;
      }))
      w

approve : Env → ℕ → TaskResult → Act Outcome
unfolding notify
approve e attempt r = do
  notify e "task.done" ("Loop approved on attempt " ⧺ itoa attempt)
  pure (ok (some r))

after_save : Env → ℕ → ℕ → Act Outcome → Option String → Act Outcome
unfolding notify
after_save e limit attempt next (some m) =
    pure (err ("loop attempt " ⧺ itoa attempt ⧺ ": save task: " ⧺ m))
after_save e limit attempt next none = do
  notify e "phase.transition"
      ("Output needs improvement — attempt " ⧺ itoa attempt ⧺ "/" ⧺ itoa limit)
  next

save_task_step : Env → Act (Option String)
save_task_step e w = asking (save_task w.task) e.save_error w

improve : Env → ℕ → ℕ → String → Act Outcome → Act Outcome
unfolding after_save save_task_step improved
improve e limit attempt guidance next = do
  update (improved attempt guidance)
  saved ← save_task_step e
  after_save e limit attempt next saved

after_guidance : Env → ℕ → ℕ → Act Outcome → Option String → Act Outcome
unfolding improve
after_guidance e limit attempt next none = pure (err slice_panic)
after_guidance e limit attempt next (some guidance) = improve e limit attempt guidance next

after_review : Env → ℕ → ℕ → TaskResult → Act Outcome → Result LlmResponse → Act Outcome
unfolding approve after_guidance is_approved guidance_of
after_review e limit attempt r next (err m) =
    pure (err ("loop attempt " ⧺ itoa attempt ⧺ ": " ⧺ model_opus ⧺ " review: " ⧺ m))
after_review e limit attempt r next (ok resp) =
    let verdict = trim_space resp.content in
    if is_approved verdict
    then approve e attempt r
    else after_guidance e limit attempt next (guidance_of verdict)

review : Env → ℕ → ℕ → TaskResult → Act Outcome → Act Outcome
unfolding after_review review_request
review e limit attempt r next = do
  answer ← (λ w. asking (call_llm (review_request w.task r)) e.llm_result w)
  after_review e limit attempt r next answer

after_run : Env → ℕ → ℕ → Act Outcome → Outcome → Act Outcome
unfolding review
after_run e limit attempt next (err m) = pure (err ("loop attempt " ⧺ itoa attempt ⧺ ": " ⧺ m))
after_run e limit attempt next (ok none) =
    pure (err ("loop attempt " ⧺ itoa attempt ⧺ ": implement returned nil result"))
after_run e limit attempt next (ok (some r)) = review e limit attempt r next

-- The loop, with the attempts that are left.
unfoldable pub attempts : Env → ℕ → ℕ → ℕ → Act Outcome
unfolding after_run
attempts e limit zero attempt = pure (err ("output not approved after " ⧺ itoa limit ⧺ " attempts"))
attempts e limit (suc left) attempt = do
  outcome ← Runner.run e
  after_run e limit attempt (attempts e limit left (suc attempt)) outcome

-- `Run` of `LoopOrchestrator`; its result is never absent without an error.
unfoldable pub run : Env → ℕ → Act Outcome
unfolding attempts
run e limit = attempts e limit limit 1
