-- ===== src/Phase/Idea/Endings.antt =====
-- How `Run` of internal/usecase/phase/idea_clarify.go ends.
use agent_claw.Base.{ℕ, suc, ◌+◌, ◌≤◌, ◌≡◌, String, true, [], ◌∷◌, none}
use agent_claw.Domain.Project.{IdeaClarifyResult}
use agent_claw.Domain.Types.{Task, Event}
use agent_claw.Port.{LlmResponse, ok}
use agent_claw.Phase.Types.{
  Env, World, PhaseResult, Trace, done_result, suspended_result, error_result, dispatch, save_task,
  call_llm, resolve,
}
use agent_claw.Phase.Helpers
use agent_claw.Phase.Helpers.{strip_markdown_fences}
use agent_claw.Phase.Idea.{Json, collected}

-- The models asked, and the questions that went to the escalator.
abbrev pub calls : Trace → ℕ
calls [] = 0
calls (call_llm x ∷ t) = suc (calls t)
calls (_ ∷ t) = calls t

abbrev pub questions : Trace → ℕ
questions [] = 0
questions (resolve x ∷ t) = suc (questions t)
questions (_ ∷ t) = questions t

-- The phase is done only with what the model said in an answer that calls the information complete, and the
-- task was saved so; while it waits for the human the task is as before.
pub data IsIdea (e : Env) (json : Json) (t : Task) : PhaseResult → World → Type 0 where
  idea_collected :
      (asked : Trace) (resp : LlmResponse) (r : IdeaClarifyResult) (event : Event) (before : Trace)
      (w : World)
      → e.llm_result asked ≡ ok resp
      → json.parse_result (strip_markdown_fences resp.content) ≡ ok r
      → r.ready ≡ true
      → w.task ≡ collected r.concept t
      → w.trace ≡ dispatch event ∷ save_task w.task ∷ before
      → IsIdea e json t (done_result none) w
  waits : (w : World) → w.task ≡ t → IsIdea e json t suspended_result w
  failed : (m : String) (w : World) → IsIdea e json t (error_result m) w

-- An ending, with at most so many models and humans asked more than before.
pub record Ends (e : Env) (json : Json) (t : Task) (more_calls more_questions : ℕ) (s : Trace)
    (o : PhaseResult) (w : World) : Type 0 where
  pub few_calls : calls w.trace ≤ calls s + more_calls
  pub few_questions : questions w.trace ≤ questions s + more_questions
  pub verdict : IsIdea e json t o w

module _ (e : Env) (json : Json) (t : Task) where
  -- The state has spent so much more than `s`, and the task is as it was.
  pub record At (c q : ℕ) (s : Trace) (w : World) : Type 0 where
    pub calls_le : calls w.trace ≤ calls s + c
    pub questions_le : questions w.trace ≤ questions s + q
    pub task_is : w.task ≡ t
