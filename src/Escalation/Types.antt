-- ===== src/Escalation/Types.antt =====
-- The collaborators of internal/usecase/escalation and what is done with them.
use agent_claw.Base.{ℕ, String, Bool, List, [], ◌∷◌, Option, none, some, ◌==◌, if◌then◌else◌, State}
use agent_claw.Domain.Types.{Event, PhaseCheckpoint, Time}
use agent_claw.Port.{LlmRequest, LlmResponse, Result}

-- `CachedAnswer`.
pub record CachedAnswer : Type 0 where
  pub summary : String
  pub occurrence_count : ℕ

-- What the chain does, newest first in a trace. `await` is the `select` on the reply and the timeout.
pub data Effect : Type 0 where
  search : String → String → Effect
  save_answer : String → String → String → Effect
  call_llm : LlmRequest → Effect
  dispatch : Event → Effect
  save_checkpoint : PhaseCheckpoint → Effect
  delete_checkpoint : String → Effect
  ask_human : String → String → String → String → String → Effect
  register_reply : ℕ → String → String → Effect
  unregister_reply : ℕ → Effect
  await : ℕ → Effect

abbrev pub Trace : Type 0
Trace = List Effect

-- How the wait for the human ends.
pub data Reply : Type 0 where
  answered : String → Reply
  channel_closed : Reply
  timed_out : Reply

-- The collaborators. Errors of the notifier and of the checkpoint store are only logged.
pub record Env : Type 0 where
  pub has_resolved : Bool
  pub has_checkpoint : Bool
  pub search_result : Trace → Result (List CachedAnswer)
  pub llm_result : Trace → Result LlmResponse
  pub ask_result : Trace → Result ℕ
  pub reply : Trace → Reply
  pub now : Trace → Time

abbrev pub Act : Type 0 → Type 0
Act A = State Trace A

-- One call of a collaborator whose result is not used.
abbrev pub perform : Effect → Act (Unit {0})
perform effect trace = (tt, effect ∷ trace)

-- One call of a collaborator, and its answer.
abbrev pub asking : {A : Type 0} → Effect → (Trace → A) → Act A
asking effect answer trace = (answer (effect ∷ trace), effect ∷ trace)

-- The same behind the check for `nil`.
abbrev pub perform_if : Bool → Effect → Act (Unit {0})
perform_if present effect trace = (tt, (if present then effect ∷ trace else trace))

-- What a checkpoint store holds for a task that only these calls change and that takes each of them. Where a real
-- one refuses a save or a delete the source logs it and goes on, so an older checkpoint may remain.
abbrev pub stored : String → Trace → Option PhaseCheckpoint
stored task [] = none
stored task (save_checkpoint cp ∷ t) = if cp.task_id == task then some cp else stored task t
stored task (delete_checkpoint id ∷ t) = if id == task then none else stored task t
stored task (_ ∷ t) = stored task t
