-- ===== src/Phase/Understand.antt =====
-- internal/usecase/phase/understand.go.
pub mod Endings
use agent_claw.Base.{
  ℕ, suc, String, Bool, true, false, List, [], ◌∷◌, ◌++◌, Option, none, some, ◌==◌, ◌⧺◌, Dict,
  if◌then◌else◌, State, pure, ◌>>=◌, ◌>>◌, itoa, length, ltb, join,
}
use agent_claw.Domain.Types.{
  Task, Question, PhaseCheckpoint, ExecutionPhase, status_channel, phase_understand, phase_clarify,
  phase_plan, get_accumulated, Time,
}
use agent_claw.Port.{LlmRequest, LlmResponse, Result, ok, err}
use agent_claw.Reasoning.{with_thinking}
use agent_claw.Phase.Types.{
  Env, Act, World, PhaseResult, done_result, error_result, UnderstandOutput, call_llm, save_task,
  asking, update,
}
use agent_claw.Phase.Helpers
use agent_claw.Phase.Helpers.{truncate, strip_markdown_fences, dispatch_event, with_prompt_cache}

understand_system : String
understand_system =
    "You are a senior engineer. Analyze the task and return ONLY compact JSON (no whitespace, no markdown fences):\n{\"understanding\":\"...\",\"assumptions\":[\"...\"],\"risks\":[\"...\"],\"questions\":[\"...\"]}"

-- The request of `callWithRetry`.
pub understand_request : Env → String → Task → LlmRequest
unfolding understand_system
understand_request e user_msg task = with_prompt_cache (
    with_thinking
      (record {
        model = e.agent.model;
        system = understand_system;
        messages = record { role = "user"; content = user_msg } ∷ [];
        max_tokens = 2048;
        task_id = task.id;
        cache_control = none;
        batch_mode = false;
        thinking = none;
      })
      phase_understand task.complexity)

-- What follows an answer: `retry` is the next attempt.
after_parse :
    Act (Result UnderstandOutput) → Result UnderstandOutput → Act (Result UnderstandOutput)
after_parse retry (ok out) = pure (ok out)
after_parse retry (err e) = retry

after_answer :
    Env
    → (String → Act (Result UnderstandOutput))
    → Result LlmResponse
    → Act (Result UnderstandOutput)
unfolding after_parse
after_answer e retry (err m) = pure (err ("LLM call: " ⧺ m))
after_answer e retry (ok resp) =
    let raw = strip_markdown_fences resp.content in
    after_parse (retry (elim (e.parse_understanding raw) [ ok out ↦ "" | err m ↦ m ]))
      (e.parse_understanding raw)

not_parsed : String → Act (Result UnderstandOutput)
not_parsed m = pure (err ("parse LLM JSON after retry: " ⧺ m))

second_attempt : Env → LlmRequest → Act (Result UnderstandOutput)
unfolding after_answer not_parsed
second_attempt e req = do
  second ← asking (call_llm req) e.llm_result
  after_answer e not_parsed second

first_attempt : Env → LlmRequest → Act (Result UnderstandOutput)
unfolding after_answer second_attempt
first_attempt e req = do
  first ← asking (call_llm req) e.llm_result
  after_answer e (λ ignored. second_attempt e req) first

-- `callWithRetry`.
unfoldable pub call_with_retry : Env → String → Act (Result UnderstandOutput)
unfolding first_attempt understand_request
call_with_retry e user_msg w = first_attempt e (understand_request e user_msg w.task) w

-- The questions of the answer, numbered from `i`.
asked_questions : String → Time → ℕ → List String → List Question
asked_questions id at i [] = []
asked_questions id at i (q ∷ qs) =
    record {
      id = id ⧺ "-q" ⧺ itoa i;
      text = q;
      answer = "";
      answered_by = "";
      resolved = false;
      created_at = at;
    }
    ∷ asked_questions id at (suc i) qs

-- The fields of the task that the answer sets.
unfoldable pub understood : UnderstandOutput → Time → Task → Task
unfolding asked_questions
understood out at task = record task {
  understanding = out.understanding;
  assumptions = out.assumptions;
  risks = out.risks;
  questions = task.questions ++ asked_questions task.id at 0 out.questions;
  phase = if ltb 0 (length out.questions) then phase_clarify else phase_plan;
}

pub user_message : Env → Task → String
user_message e task =
    "Task: "
    ⧺ task.title
    ⧺ "\n\nDescription: "
    ⧺ task.description
    ⧺ "\n\nProject context:\n"
    ⧺ truncate e.project_doc 3200
    ⧺ "\n\nAgent context:\n"
    ⧺ truncate e.agent_doc 1600

summary : Task → String
summary task =
    if ltb 0 (length task.questions)
    then "Task paused — " ⧺ itoa (length task.questions) ⧺ " questions pending clarification"
    else "Understood — moving to plan. Assumptions: "
      ⧺ truncate ("[" ⧺ join " " task.assumptions ⧺ "]") 200

after_save : Env → Option String → Act PhaseResult
unfolding summary
after_save e (some m) = pure (error_result ("understand: save task: " ⧺ m))
after_save e none = do
  (λ w. dispatch_event e "phase.transition" status_channel "" (("message", summary w.task) ∷ []) w)
  pure (done_result none)

save_task_step : Env → Act (Option String)
save_task_step e w = asking (save_task w.task) e.save_error w

after_call : Env → Result UnderstandOutput → Act PhaseResult
unfolding after_save save_task_step
after_call e (err m) = pure (error_result ("understand: " ⧺ m))
after_call e (ok out) = do
  (λ w. update (understood out (e.now w.trace)) w)
  (λ w.
      Helpers.save e w.task.phase 0 "phase_transition"
        (("understanding", w.task.understanding) ∷ []) w)
  saved ← save_task_step e
  after_save e saved

-- The understanding that a checkpoint of this phase gives back.
restored : Option PhaseCheckpoint → Task → Task
restored none task = task
restored (some cp) task =
    let prev = get_accumulated cp "understanding" in
    if cp.phase == phase_understand
    then (if prev == "" then task else record task { understanding = prev })
    else task

-- `Run` of `UnderstandPhase`.
unfoldable pub run : Env → Option PhaseCheckpoint → Act PhaseResult
unfolding after_call restored user_message
run e checkpoint = do
  update (restored checkpoint)
  dispatch_event e "phase.transition" status_channel e.agent.model
      (("message", "Starting understand phase") ∷ [])
  (λ w.
      Helpers.save e phase_understand 0 "llm_call"
        (("user_msg", truncate (user_message e w.task) 2000) ∷ []) w)
  result ← (λ w. call_with_retry e (user_message e w.task) w)
  after_call e result
