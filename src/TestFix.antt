-- ===== src/TestFix.antt =====
-- internal/usecase/orchestrator/test_fix.go: the tests of an implementation are run, and a model is asked
-- for a fix when they fail.
pub mod Endings
use agent_claw.Base.{
  ℕ, zero, suc, String, Bool, false, List, [], ◌∷◌, Option, none, some, ◌⧺◌, len, slice, ltb, leb,
  eqb, if◌then◌else◌, itoa, State, pure, ◌>>=◌, ◌>>◌,
}
use agent_claw.Base.Int64.{add64}
use agent_claw.Base.Float.{add}
use agent_claw.Domain.Models.{worker_model_for_complexity}
use agent_claw.Domain.Types.{
  Task, TaskResult, Event, Channel, status_channel, human_channel, phase_implement, Time,
}
use agent_claw.Port.{LlmRequest, LlmResponse, Result, ok, err}
use agent_claw.Reasoning.{with_thinking}
use agent_claw.Phase.Types.{World}
use agent_claw.Phase.Types as phase
use agent_claw.Phase.Runner

-- `CommandResult`, with the bit pattern of the exit code.
pub record CommandResult : Type 0 where
  pub stdout : String
  pub stderr : String
  pub exit_code : ℕ

-- What the orchestrator does after the implementation, newest first in a trace.
pub data Effect : Type 0 where
  dispatch : Event → Effect
  run_command : String → String → List String → Effect
  call_llm : LlmRequest → Effect

abbrev pub Trace : Type 0
Trace = List Effect

-- The collaborators, and the arguments of `Run` that do not change.
pub record Env : Type 0 where
  pub task : Task
  pub work_dir : String
  pub test_cmd : String
  pub test_args : List String
  pub test_result : Trace → Result CommandResult
  pub llm_result : Trace → Result LlmResponse
  pub now : Trace → Time

abbrev pub Act : Type 0 → Type 0
Act A = State Trace A

-- The two results of `Run`.
pub record Outcome : Type 0 where
  pub result : Option TaskResult
  pub error : Option String

abbrev pub failure : String → Outcome
failure m = record { result = none; error = some m }

-- `NewTestFixOrchestrator`: the limit that it keeps, where 0 stands for every limit that is not positive.
unfoldable pub max_attempts_of : ℕ → ℕ
max_attempts_of n = if leb n 0 then 3 else n

announce : Env → String → Channel → String → Act (Unit {0})
announce e type channel message trace = (
  tt,
  dispatch (record {
    type = type;
    channel = channel;
    task_id = e.task.id;
    agent_id = "";
    agent_role = "";
    model = "";
    payload = ("message", message) ∷ [];
    occurred_at = e.now trace;
  })
      ∷ trace,
)

capped : String → String
capped s = if ltb 2000 (len s) then slice s 0 2000 ⧺ "\n... [truncated]" else s

-- `buildFixPrompt`.
unfoldable pub build_fix_prompt : CommandResult → ℕ → String
unfolding capped
build_fix_prompt tested attempt =
    "Test failure (attempt "
    ⧺ itoa attempt
    ⧺ "). Fix the code.\n\n"
    ⧺ "--- STDOUT ---\n"
    ⧺ capped tested.stdout
    ⧺ "\n\n--- STDERR ---\n"
    ⧺ capped tested.stderr

fix_request : Env → CommandResult → ℕ → LlmRequest
unfolding build_fix_prompt
fix_request e tested attempt =
    with_thinking
      (record {
        model = worker_model_for_complexity e.task.complexity;
        system =
            "You are a senior engineer. Fix the code based on the test failure output. Return ONLY the corrected code with file paths.";
        messages = record { role = "user"; content = build_fix_prompt tested attempt } ∷ [];
        max_tokens = 8192;
        task_id = e.task.id;
        cache_control = none;
        batch_mode = false;
        thinking = none;
      })
      phase_implement e.task.complexity

-- The result with the fix.
fixed : TaskResult → LlmResponse → TaskResult
fixed r resp = record r {
  output = resp.content;
  input_tokens = add64 r.input_tokens resp.input_tokens;
  output_tokens = add64 r.output_tokens resp.output_tokens;
  thinking_tokens = add64 r.thinking_tokens resp.thinking_tokens;
  cost_usd = add r.cost_usd resp.cost_usd;
}

-- The parts of an attempt; `next` is the rest of the loop.
after_fix : ℕ → TaskResult → (TaskResult → Act Outcome) → Result LlmResponse → Act Outcome
unfolding fixed
after_fix attempt r next (err m) =
    pure (failure ("test_fix: fix attempt " ⧺ itoa attempt ⧺ ": " ⧺ m))
after_fix attempt r next (ok resp) = next (fixed r resp)

ask_for_fix : Env → ℕ → ℕ → TaskResult → (TaskResult → Act Outcome) → CommandResult → Act Outcome
unfolding announce after_fix fix_request
ask_for_fix e limit attempt r next tested = do
  announce e "phase.transition" status_channel
      ("Tests failed — requesting fix (attempt " ⧺ itoa attempt ⧺ "/" ⧺ itoa limit ⧺ ")")
  answer ←
      (λ t. let asked = call_llm (fix_request e tested attempt) ∷ t in (e.llm_result asked, asked))
  after_fix attempt r next answer

passed : Env → ℕ → TaskResult → Act Outcome
unfolding announce
passed e attempt r = do
  announce e "task.done" status_channel ("Tests passed on attempt " ⧺ itoa attempt)
  pure (record { result = some r; error = none })

exhausted : Env → ℕ → TaskResult → Act Outcome
unfolding announce
exhausted e limit r = do
  announce e "task.failed" human_channel
      ("Tests still failing after " ⧺ itoa limit ⧺ " fix attempts — needs human intervention")
  pure (record {
    result = some r;
    error = some ("test_fix: tests still failing after " ⧺ itoa limit ⧺ " attempts");
  })

after_test :
    Env → ℕ → ℕ → TaskResult → (TaskResult → Act Outcome) → Result CommandResult → Act Outcome
unfolding passed exhausted ask_for_fix
after_test e limit attempt r next (err m) = pure (failure ("test_fix: run tests: " ⧺ m))
after_test e limit attempt r next (ok tested) =
    if eqb tested.exit_code 0
    then passed e attempt r
    else if leb limit attempt
    then exhausted e limit r
    else ask_for_fix e limit attempt r next tested

-- The loop, with the attempts that are left.
unfoldable pub attempts : Env → ℕ → ℕ → ℕ → TaskResult → Act Outcome
unfolding announce after_test exhausted
attempts e limit zero attempt r = exhausted e limit r
attempts e limit (suc left) attempt r = do
  announce e "phase.transition" status_channel
      ("Running tests — attempt " ⧺ itoa attempt ⧺ "/" ⧺ itoa limit)
  tested ← (λ t.
      let tried = run_command e.work_dir e.test_cmd e.test_args ∷ t in (e.test_result tried, tried))
  after_test e limit attempt r (attempts e limit left (suc attempt)) tested

after_implement : Env → ℕ → Runner.Outcome → Act Outcome
unfolding attempts
after_implement e limit (err m) = pure (failure ("test_fix: implement: " ⧺ m))
after_implement e limit (ok none) = pure (failure "test_fix: implement returned nil (suspended)")
after_implement e limit (ok (some r)) = attempts e limit limit 1 r

-- `Run`, from the world of the phase runner.
unfoldable pub run : Env → phase.Env → ℕ → World → Act Outcome
unfolding after_implement
run e phases limit w = after_implement e limit (Runner.run phases w).0
