-- ===== src/Escalation/Chain.antt =====
-- internal/usecase/escalation/chain.go.
pub mod Outcomes
pub mod Checkpoints
use agent_claw.Base.{
  ℕ, String, Bool, true, false, ◌||◌, List, [], ◌∷◌, Option, none, some, Dict, leb, ltb,
  if◌then◌else◌, State, pure, ◌>>=◌, ◌>>◌, ◌⧺◌, len, starts_with, trim_space, to_upper,
  truncate_with, join,
}
use agent_claw.Base.Float.{of_nat}
use agent_claw.Domain.Models.{escalation_chain, is_human_level, model_cache, model_human}
use agent_claw.Domain.Types.{
  Event, Channel, status_channel, human_channel, EscalationResult, PhaseCheckpoint, phase_clarify,
}
use agent_claw.Port.{LlmRequest, LlmResponse, EscalatorRequest, Result, ok, err}
use agent_claw.Escalation.Types.{
  Effect, Env, Act, Trace, Reply, answered, channel_closed, timed_out, call_llm, dispatch,
  save_checkpoint, delete_checkpoint, ask_human, register_reply, unregister_reply, await, perform,
  perform_if, asking,
}
use agent_claw.Escalation.Cache

-- `truncate`.
unfoldable pub truncate : String → ℕ → String
truncate s n = truncate_with "…" s n

-- `dispatch`.
dispatch_event : Env → String → Channel → EscalatorRequest → Dict String → Act (Unit {0})
dispatch_event e type channel req payload trace = (
  tt,
  dispatch (record {
    type = type;
    channel = channel;
    task_id = req.task_id;
    agent_id = "";
    agent_role = req.agent_role;
    model = "";
    payload = payload;
    occurred_at = e.now trace;
  })
      ∷ trace,
)

-- The checkpoint before an attempt at a level, or before the human is asked.
pub checkpoint_for : EscalatorRequest → String → String → Dict String → PhaseCheckpoint
checkpoint_for req step_name level extra = record {
  task_id = req.task_id;
  agent_id = "";
  phase = phase_clarify;
  step_index = 0;
  step_name = step_name;
  accumulated = some (("task_context", req.task_context) ∷ ("agent_role", req.agent_role) ∷ extra);
  pending_query = req.question;
  pending_query_id = req.question_id;
  suspended_model = req.agent_model;
  escalated_to = level;
  last_system_prompt = "";
  last_messages = [];
  last_response = "";
  input_tokens = 0;
  output_tokens = 0;
  cost_usd = of_nat 0;
  saved_at = 0;
}

-- The three results of `tryAt`.
pub data Attempt : Type 0 where
  confident : String → Attempt
  declined : Attempt
  failed : String → Attempt

-- The request that `tryAt` sends.
unfoldable pub attempt_request : String → EscalatorRequest → LlmRequest
attempt_request level req = record {
  model = level;
  system =
      "Answer the following question concisely. If you cannot answer confidently, respond with ESCALATE.";
  messages =
      record {
        role = "user";
        content = "Context: " ⧺ req.task_context ⧺ "\n\nQuestion: " ⧺ req.question;
      }
      ∷ [];
  max_tokens = 1024;
  task_id = req.task_id;
  cache_control = none;
  batch_mode = false;
  thinking = none;
}

-- How `tryAt` reads the response.
unfoldable pub judge : String → Result LlmResponse → Attempt
judge level (err e) = failed ("tryAt(" ⧺ level ⧺ "): " ⧺ e)
judge level (ok resp) =
    let content = trim_space resp.content in
    if starts_with (to_upper content) "ESCALATE" || ltb 800 (len content)
    then declined
    else confident content

-- `tryAt`.
unfoldable pub try_at : Env → String → EscalatorRequest → Act Attempt
unfolding judge attempt_request
try_at e level req = do
  resp ← asking (call_llm (attempt_request level req)) e.llm_result
  pure (judge level resp)

abbrev pub resolved_by : String → String → EscalationResult
resolved_by level answer = record {
  answer = answer;
  answered_by = level;
  resolved = true;
  needs_human = false;
}

-- The events that are dispatched.
announce_failure : Env → EscalatorRequest → String → String → Act (Unit {0})
unfolding dispatch_event
announce_failure e req level message =
    dispatch_event e "escalated" status_channel req
      (("message", "LLM error at " ⧺ level ⧺ ": " ⧺ truncate message 80 ⧺ " — escalating") ∷ [])

announce_answer : Env → EscalatorRequest → String → Act (Unit {0})
unfolding dispatch_event
announce_answer e req level = dispatch_event e "escalated" status_channel req (
    ("message", "Question resolved by " ⧺ level ⧺ " — Q: " ⧺ truncate req.question 80)
    ∷ ("answered_by", level)
    ∷ [])

-- What follows an attempt: `next` is the rest of the loop.
after_attempt :
    Env
    → EscalatorRequest
    → String
    → Act (Option EscalationResult)
    → Attempt
    → Act (Option EscalationResult)
unfolding announce_failure announce_answer
after_attempt e req level next declined = next
after_attempt e req level next (failed message) = do announce_failure e req level message; next
after_attempt e req level next (confident answer) = do
  Cache.save e req.question answer req.agent_role
  perform_if e.has_checkpoint (delete_checkpoint req.task_id)
  announce_answer e req level
  pure (some (resolved_by level answer))

-- The loop of `Resolve` over the chain; `none` falls through to the human.
unfoldable pub try_levels : Env → EscalatorRequest → List String → Act (Option EscalationResult)
unfolding after_attempt
try_levels e req [] = pure none
try_levels e req (level ∷ rest) =
    let next = try_levels e req rest in
    let go : Act (Option EscalationResult) = (do
      perform_if e.has_checkpoint (save_checkpoint (checkpoint_for req "escalation" level []))
      attempt ← try_at e level req
      after_attempt e req level next attempt) in
    if is_human_level level then pure none else go

-- The end of the wait for the human.
after_reply : Env → EscalatorRequest → ℕ → Reply → Act (Result EscalationResult)
after_reply e req msg_id (answered answer) = do
  Cache.save e req.question answer req.agent_role
  perform_if e.has_checkpoint (delete_checkpoint req.task_id)
  pure (ok (resolved_by model_human answer))
after_reply e req msg_id channel_closed = pure (err "question expired")
after_reply e req msg_id timed_out = do
  perform (unregister_reply msg_id)
  pure (ok (record { answer = ""; answered_by = ""; resolved = false; needs_human = true }))

after_asking : Env → EscalatorRequest → List String → Result ℕ → Act (Result EscalationResult)
unfolding after_reply dispatch_event
after_asking e req chain (err e') = pure (err ("escalation: ask human: " ⧺ e'))
after_asking e req chain (ok msg_id) = do
  perform (register_reply msg_id req.task_id req.question_id)
  dispatch_event e "escalated" human_channel req
      (("message", "Full escalation chain exhausted — needs human. Path: " ⧺ join " → " chain) ∷ [])
  reply ← asking (await msg_id) e.reply
  after_reply e req msg_id reply

-- Step 4 of `Resolve`.
ask_the_human : Env → EscalatorRequest → List String → Act (Result EscalationResult)
unfolding after_asking
ask_the_human e req chain = do
  perform_if e.has_checkpoint (
      save_checkpoint (
        checkpoint_for req "human_escalation" model_human
          (("escalation_path", join " → " chain) ∷ [])))
  asked ←
      asking (ask_human req.agent_model req.task_id "" req.question_id req.question) e.ask_result
  after_asking e req chain asked

after_levels :
    Env → EscalatorRequest → List String → Option EscalationResult → Act (Result EscalationResult)
unfolding ask_the_human
after_levels e req chain (some result) = pure (ok result)
after_levels e req chain none = ask_the_human e req chain

after_check : Env → EscalatorRequest → Option String → Act (Result EscalationResult)
unfolding dispatch_event after_levels
after_check e req (some answer) = do
  dispatch_event e "question.answered" status_channel req
      (("message", "Resolved from cache") ∷ ("answered_by", model_cache) ∷ [])
  pure (ok (resolved_by model_cache answer))
after_check e req none = do
  let chain = escalation_chain req.agent_model
  result ← try_levels e req chain
  after_levels e req chain result

-- `Resolve`.
unfoldable pub resolve : Env → EscalatorRequest → Act (Result EscalationResult)
unfolding after_check
resolve e req = do hit ← Cache.check e req.question req.agent_role; after_check e req hit
