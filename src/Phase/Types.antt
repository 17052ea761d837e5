-- ===== src/Phase/Types.antt =====
-- The state of a run of internal/usecase/phase and its collaborators (types.go).
use agent_claw.Base.{
  String, Bool, true, false, List, [], ◌∷◌, Option, none, some, ◌==◌, State, if◌then◌else◌,
}
use agent_claw.Base.Float.{Float64}
use agent_claw.Domain.Types.{
  Task, Event, PhaseCheckpoint, TaskResult, EscalationResult, AgentConfig, Time,
}
use agent_claw.Port.{LlmRequest, LlmResponse, EscalatorRequest, Result}

-- `PhaseResult`.
pub record PhaseResult : Type 0 where
  pub done : Bool
  pub suspended : Bool
  pub restarted : Bool
  pub error : Option String
  pub task_result : Option TaskResult

abbrev pub done_result : Option TaskResult → PhaseResult
done_result r = record {
  done = true;
  suspended = false;
  restarted = false;
  error = none;
  task_result = r;
}

abbrev pub suspended_result : PhaseResult
suspended_result = record {
  done = false;
  suspended = true;
  restarted = false;
  error = none;
  task_result = none;
}

abbrev pub restarted_result : PhaseResult
restarted_result = record {
  done = false;
  suspended = false;
  restarted = true;
  error = none;
  task_result = none;
}

abbrev pub error_result : String → PhaseResult
error_result e = record {
  done = false;
  suspended = false;
  restarted = false;
  error = some e;
  task_result = none;
}

-- How a panic of the program is written: nothing recovers from it, so it ends the process. It is an error here, since
-- a phase, the runner and the orchestrators return at once on an error.
abbrev pub slice_panic : String
slice_panic = "panic: runtime error: slice bounds out of range"

-- `AgentState`, without the metrics that the phases leave at zero.
pub record AgentState : Type 0 where
  pub agent_id : String
  pub role : String
  pub model : String
  pub status : String
  pub task_id : String
  pub task_title : String
  pub progress : String
  pub blockers : String
  pub time_stuck : String
  pub updated_at : Time

-- What the phases do, newest first in a trace. `dispatch` is the start of the goroutine that
-- notifies, `dispatch_now` a notification that is waited for.
pub data Effect : Type 0 where
  call_llm : LlmRequest → Effect
  dispatch : Event → Effect
  dispatch_now : Event → Effect
  load_checkpoint : String → Effect
  save_checkpoint : PhaseCheckpoint → Effect
  delete_checkpoint : String → Effect
  save_task : Task → Effect
  write_state : String → AgentState → Effect
  resolve : EscalatorRequest → Effect

abbrev pub Trace : Type 0
Trace = List Effect

pub record World : Type 0 where
  pub task : Task
  pub trace : Trace

-- What `understandOutput` and `planOutput` hold.
pub record UnderstandOutput : Type 0 where
  pub understanding : String
  pub assumptions : List String
  pub risks : List String
  pub questions : List String

pub record PlanOutput : Type 0 where
  pub plan : String
  pub files_to_change : List String

-- `PhaseContext` less the task; `json.Unmarshal` at the two types; `%.6f` and `Duration.String`.
pub record Env : Type 0 where
  pub agent : AgentConfig
  pub project_doc : String
  pub agent_doc : String
  pub has_checkpoint : Bool
  pub load_result : Trace → Result (Option PhaseCheckpoint)
  pub llm_result : Trace → Result LlmResponse
  pub save_error : Trace → Option String
  pub resolve_result : Trace → Result EscalationResult
  pub parse_understanding : String → Result UnderstandOutput
  pub parse_plan : String → Result PlanOutput
  pub cost_text : Float64 → String
  pub duration_text : Time → String
  pub now : Trace → Time

abbrev pub Act : Type 0 → Type 0
Act A = State World A

-- One call of a collaborator whose result is not used.
abbrev pub perform : Effect → Act (Unit {0})
perform effect w = (tt, record w { trace = effect ∷ w.trace })

-- One call of a collaborator, and its answer.
abbrev pub asking : {A : Type 0} → Effect → (Trace → A) → Act A
asking effect answer w = (answer (effect ∷ w.trace), record w { trace = effect ∷ w.trace })

-- An assignment to fields of the task.
abbrev pub update : (Task → Task) → Act (Unit {0})
update f w = (tt, record w { task = f w.task })

-- What a checkpoint store holds for a task that only these calls change and that takes each of them. Where a real
-- one refuses a save or a delete the source logs it and goes on, so an older checkpoint may remain.
abbrev pub stored : String → Trace → Option PhaseCheckpoint
stored id [] = none
stored id (save_checkpoint cp ∷ t) = if cp.task_id == id then some cp else stored id t
stored id (delete_checkpoint i ∷ t) = if i == id then none else stored id t
stored id (_ ∷ t) = stored id t
