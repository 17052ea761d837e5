-- ===== src/Guard/Wrappers.antt =====
-- internal/guard/guarded_runner.go, guarded_writer.go and guarded_llm.go: what is checked before a
-- collaborator is called, and after a model has answered.
pub mod Barriers
use agent_claw.Base.{
  ℕ, String, Bool, not, List, [], ◌∷◌, Option, none, some, ◌==◌, ◌⧺◌, if◌then◌else◌,
}
use agent_claw.Port.{LlmMessage, LlmRequest, LlmResponse, Result, ok, err}
use agent_claw.TestFix.{CommandResult}
use agent_claw.Guard.Types.{Verdict}
use agent_claw.Guard.Engine.{
  Engine, check_command, check_file_write, check_llm_input, check_llm_output,
}

-- The calls that reach the collaborators inside.
pub data Effect : Type 0 where
  run_command : String → String → List String → Effect
  write_file : String → String → Effect
  mkdir_all : String → Effect
  call_llm : LlmRequest → Effect

abbrev pub Trace : Type 0
Trace = List Effect

-- The engine, which the wrappers share, and the calls, the newest first.
pub record World : Type 0 where
  pub engine : Engine
  pub trace : Trace

-- What the collaborators answer.
pub record Env : Type 0 where
  pub command_result : Trace → Result CommandResult
  pub write_error : Trace → Option String
  pub llm_result : Trace → Result LlmResponse

-- A check, by the engine of the world.
abbrev checking : (Engine → Option Verdict × Engine) → World → Option Verdict × World
checking check w = let (v, engine) = check w.engine in (v, record w { engine = engine })

-- `v != nil && v.Blocked`, as the verdict that blocks.
unfoldable pub blocking : Option Verdict → Option Verdict
blocking none = none
blocking (some v) = if v.blocked then some v else none

unfoldable pub blocked_text : String → Verdict → String
blocked_text what v = "guard: " ⧺ what ⧺ " [" ⧺ v.rule ⧺ "] " ⧺ v.reason

-- A call of a collaborator.
abbrev calling : {A : Type 0} → Effect → (Trace → A) → World → A × World
calling effect answer w = (answer (effect ∷ w.trace), record w { trace = effect ∷ w.trace })

run_if : Env → Effect → Option Verdict → World → Result CommandResult × World
unfolding blocked_text
run_if e effect none w = calling effect e.command_result w
run_if e effect (some v) w = (err (blocked_text "blocked" v), w)

-- `Run` of `GuardedRunner`, for a role; the exit code -1 beside the error is left out.
unfoldable pub guarded_run :
    Env → String → String → String → List String → World → Result CommandResult × World
unfolding run_if blocking
guarded_run e role work_dir name arguments w =
    let (v, w') = checking (check_command role name arguments) w in
    run_if e (run_command work_dir name arguments) (blocking v) w'

write_if : Env → Effect → Option Verdict → World → Option String × World
unfolding blocked_text
write_if e effect none w = calling effect e.write_error w
write_if e effect (some v) w = (some (blocked_text "blocked" v), w)

-- `WriteFile` of `GuardedWriter`, for a role.
unfoldable pub guarded_write : Env → String → String → String → World → Option String × World
unfolding write_if blocking
guarded_write e role path content w =
    let (v, w') = checking (check_file_write role path content) w in
    write_if e (write_file path content) (blocking v) w'

-- `MkdirAll` of `GuardedWriter`.
unfoldable pub guarded_mkdir : Env → String → World → Option String × World
guarded_mkdir e path w = calling (mkdir_all path) e.write_error w

after_input :
    String
    → Option Verdict
    → (World → Result LlmResponse × World)
    → World
    → Result LlmResponse × World
unfolding blocked_text
after_input what none next w = next w
after_input what (some v) next w = (err (blocked_text what v), w)

-- The scan of one text.
scan_text :
    String → String → (World → Result LlmResponse × World) → World → Result LlmResponse × World
unfolding after_input blocking
scan_text what text next w =
    let (v, w') = checking (check_llm_input text) w in after_input what (blocking v) next w'

-- The scan of the messages of the user.
unfoldable pub scan_messages :
    List LlmMessage → (World → Result LlmResponse × World) → World → Result LlmResponse × World
unfolding scan_text
scan_messages [] next w = next w
scan_messages (m ∷ messages) next w =
    let rest = scan_messages messages next in
    (if m.role == "user" then scan_text "user message blocked" m.content rest else rest) w

after_output : LlmResponse → Option Verdict → World → Result LlmResponse × World
unfolding blocked_text
after_output resp none w = (ok resp, w)
after_output resp (some v) w = (err (blocked_text "LLM output blocked" v), w)

after_call : Result LlmResponse → World → Result LlmResponse × World
unfolding after_output blocking
after_call (err m) w = (err m, w)
after_call (ok resp) w =
    let (v, w') = checking (check_llm_output resp.content) w in after_output resp (blocking v) w'

ask : Env → LlmRequest → World → Result LlmResponse × World
unfolding after_call
ask e req w = let (answer, w') = calling (call_llm req) e.llm_result w in after_call answer w'

-- `Call` of `GuardedLLM`.
unfoldable pub guarded_call : Env → LlmRequest → World → Result LlmResponse × World
unfolding scan_text ask
guarded_call e req w =
    let rest = scan_messages req.messages (ask e req) in
    (if req.system == "" then rest else scan_text "system prompt blocked" req.system rest) w
