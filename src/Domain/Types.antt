-- ===== src/Domain/Types.antt =====
-- The values of internal/domain that the use cases pass around. A phase, a status, an event type is
-- the string of its constant; `time.Time` is a number of nanoseconds, 0 for the zero time.
use agent_claw.Base.{ℕ, String, Bool, not, List, [], Option, none, some, ◌==◌, Dict, lookup, insert}
use agent_claw.Base.Float.{Float64}

abbrev pub Time : Type 0
Time = ℕ

abbrev pub ExecutionPhase : Type 0
ExecutionPhase = String

abbrev pub phase_idea_clarify : ExecutionPhase
phase_idea_clarify = "idea_clarify"

abbrev pub phase_understand : ExecutionPhase
phase_understand = "understand"

abbrev pub phase_clarify : ExecutionPhase
phase_clarify = "clarify"

abbrev pub phase_plan : ExecutionPhase
phase_plan = "plan"

abbrev pub phase_implement : ExecutionPhase
phase_implement = "implement"

abbrev pub phase_done : ExecutionPhase
phase_done = "done"

-- `Channel`.
pub data Channel : Type 0 where
  status_channel human_channel : Channel

-- `Event`.
pub record Event : Type 0 where
  pub type : String
  pub channel : Channel
  pub task_id : String
  pub agent_id : String
  pub agent_role : String
  pub model : String
  pub payload : Dict String
  pub occurred_at : Time

-- `Question`.
pub record Question : Type 0 where
  pub id : String
  pub text : String
  pub answer : String
  pub answered_by : String
  pub resolved : Bool
  pub created_at : Time

-- `AgentConfig`.
pub record AgentConfig : Type 0 where
  pub id : String
  pub role : String
  pub model : String

-- `Task`; the token counts are `int64` bit patterns.
pub record Task : Type 0 where
  pub id : String
  pub title : String
  pub description : String
  pub agent_id : String
  pub agent_role : String
  pub status : String
  pub phase : ExecutionPhase
  pub complexity : String
  pub tags : List String
  pub understanding : String
  pub assumptions : List String
  pub risks : List String
  pub questions : List Question
  pub implement_plan : String
  pub plan_approved_by : String
  pub redirect_count : ℕ
  pub phase_started_at : Time
  pub output : String
  pub input_tokens : ℕ
  pub output_tokens : ℕ
  pub cost_usd : Float64
  pub created_at : Time
  pub updated_at : Time

-- `Artifact`.
pub record Artifact : Type 0 where
  pub type : String
  pub path : String
  pub content : String

-- `TaskResult`.
pub record TaskResult : Type 0 where
  pub task_id : String
  pub output : String
  pub artifacts : List Artifact
  pub input_tokens : ℕ
  pub output_tokens : ℕ
  pub thinking_tokens : ℕ
  pub cost_usd : Float64
  pub duration_ms : ℕ
  pub model_used : String

-- `EscalationResult`.
pub record EscalationResult : Type 0 where
  pub answer : String
  pub answered_by : String
  pub resolved : Bool
  pub needs_human : Bool

-- `LLMMessage`.
pub record LlmMessage : Type 0 where
  pub role : String
  pub content : String

-- `PhaseCheckpoint`; `SavedAt` is set by the stores, not by the code modelled here.
pub record PhaseCheckpoint : Type 0 where
  pub task_id : String
  pub agent_id : String
  pub phase : ExecutionPhase
  pub step_index : ℕ
  pub step_name : String
  pub accumulated : Option (Dict String)
  pub pending_query : String
  pub pending_query_id : String
  pub suspended_model : String
  pub escalated_to : String
  pub last_system_prompt : String
  pub last_messages : List LlmMessage
  pub last_response : String
  pub input_tokens : ℕ
  pub output_tokens : ℕ
  pub cost_usd : Float64
  pub saved_at : Time

-- `HasPendingQuery`.
unfoldable pub has_pending_query : PhaseCheckpoint → Bool
has_pending_query c = not (c.pending_query == "")

-- `AddAccumulated`.
unfoldable pub add_accumulated : PhaseCheckpoint → String → String → PhaseCheckpoint
add_accumulated c key value = record c {
  accumulated = elim c.accumulated [
    | none ↦ some (insert key value [])
    | some m ↦ some (insert key value m)
  ];
}

or_empty : Option String → String
or_empty none = ""
or_empty (some v) = v

-- `GetAccumulated`.
unfoldable pub get_accumulated : PhaseCheckpoint → String → String
unfolding or_empty
get_accumulated c key = elim c.accumulated [ none ↦ "" | some m ↦ or_empty (lookup key m) ]

-- `ClearPendingQuery`.
unfoldable pub clear_pending_query : PhaseCheckpoint → PhaseCheckpoint
clear_pending_query c = record c { pending_query = ""; pending_query_id = ""; escalated_to = "" }
