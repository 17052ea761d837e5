-- ===== src/Phase/Implement.antt =====
-- internal/usecase/phase/implement.go.
pub mod Endings
use agent_claw.Base.{
  ℕ, ◌-◌, ◌/◌, String, Bool, true, false, List, [], ◌∷◌, Option, none, some, ◌==◌, ◌⧺◌,
  if◌then◌else◌, itoa, State, pure, ◌>>=◌, ◌>>◌,
}
use agent_claw.Base.Int64.{add64}
use agent_claw.Base.Float.{add}
use agent_claw.Domain.Types.{Task, TaskResult, Time, status_channel, phase_implement, phase_done}
use agent_claw.Port.{LlmRequest, LlmResponse, Result, ok, err}
use agent_claw.Reasoning.{with_thinking}
use agent_claw.Phase.Types.{
  Env, Act, World, PhaseResult, done_result, error_result, call_llm, save_task, asking, update,
}
use agent_claw.Phase.Helpers
use agent_claw.Phase.Helpers.{dispatch_event, with_prompt_cache}

-- The request for the implementation.
unfoldable pub implement_request : Env → Task → LlmRequest
implement_request e task =
    with_thinking
      (with_prompt_cache (record {
        model = e.agent.model;
        system =
            if e.agent_doc == ""
            then "You are a " ⧺ e.agent.role ⧺ " agent. Execute the implementation plan."
            else e.agent_doc;
        messages =
            record {
              role = "user";
              content =
                  "Task: " ⧺ task.title ⧺ "\n\nDescription: " ⧺ task.description
                  ⧺ "\n\nImplementation Plan:\n" ⧺ task.implement_plan ⧺ "\n\nProject context:\n"
                  ⧺ e.project_doc;
            }
            ∷ [];
        max_tokens = 8192;
        task_id = task.id;
        cache_control = none;
        batch_mode = false;
        thinking = none;
      }))
      phase_implement task.complexity

-- What the answer sets in the task.
unfoldable pub implemented : LlmResponse → Task → Task
implemented resp task = record task {
  output = resp.content;
  phase = phase_done;
  input_tokens = add64 task.input_tokens resp.input_tokens;
  output_tokens = add64 task.output_tokens resp.output_tokens;
  cost_usd = add task.cost_usd resp.cost_usd;
}

unfoldable pub result_of : LlmResponse → ℕ → Task → TaskResult
result_of resp duration_ms task = record {
  task_id = task.id;
  output = resp.content;
  artifacts = [];
  input_tokens = resp.input_tokens;
  output_tokens = resp.output_tokens;
  thinking_tokens = resp.thinking_tokens;
  cost_usd = resp.cost_usd;
  duration_ms = duration_ms;
  model_used = resp.model_used;
}

after_save : Env → LlmResponse → ℕ → Option String → Act PhaseResult
unfolding result_of
after_save e resp duration_ms (some m) = pure (error_result ("implement: save task: " ⧺ m))
after_save e resp duration_ms none = do
  result ← (λ w. (result_of resp duration_ms w.task, w))
  dispatch_event e "task.done" status_channel resp.model_used (
      ("input_tokens", itoa resp.input_tokens)
      ∷ ("output_tokens", itoa resp.output_tokens)
      ∷ ("cost_usd", e.cost_text resp.cost_usd)
      ∷ ("duration_ms", itoa duration_ms)
      ∷ [])
  pure (done_result (some result))

save_task_step : Env → Act (Option String)
save_task_step e w = asking (save_task w.task) e.save_error w

after_call : Env → Time → Result LlmResponse → Act PhaseResult
unfolding after_save save_task_step implemented
after_call e start (err m) = pure (error_result ("implement: LLM call: " ⧺ m))
after_call e start (ok resp) = do
  duration_ms ← (λ w. ((e.now w.trace - start) / 1000000, w))
  update (implemented resp)
  saved ← save_task_step e
  after_save e resp duration_ms saved

-- `Run` of `ImplementPhase`; the clock is monotonic, so the difference is not negative.
unfoldable pub run : Env → Act PhaseResult
unfolding after_call implement_request
run e = do
  (λ w.
      dispatch_event e "task.started" status_channel e.agent.model
        (("message", "Implementing: " ⧺ w.task.title) ∷ []) w)
  start ← (λ w. (e.now w.trace, w))
  answer ← (λ w. asking (call_llm (implement_request e w.task)) e.llm_result w)
  after_call e start answer
