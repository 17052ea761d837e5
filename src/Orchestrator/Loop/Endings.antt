-- ===== src/Orchestrator/Loop/Endings.antt =====
-- How `Run` of internal/usecase/orchestrator/loop.go ends.
use agent_claw.Base.{
  ℕ, suc, ◌≡◌, String, true, false, ◌∷◌, none, some, trim_space, to_upper, starts_with, ◌≤◌,
}
use agent_claw.Domain.Types.{TaskResult, Event}
use agent_claw.Port.{LlmResponse, ok, err}
use agent_claw.Phase.Types.{Env, World, call_llm, dispatch_now, slice_panic}
use agent_claw.Phase.Runner
use agent_claw.Phase.Runner.{Outcome}
use agent_claw.Orchestrator.Loop.{review_request, guidance_of, improved, run}

-- Where an attempt begins: the first in the given world; a later one after a review that did not approve,
-- with its guidance in the task.
pub data Reaches (e : Env) (w : World) : ℕ → World → Type 0 where
  start : Reaches e w 1 w
  again :
      (attempt : ℕ) (u v : World) (r : TaskResult) (resp : LlmResponse) (guidance : String)
      → Reaches e w attempt u
      → (Runner.run e u).0 ≡ ok (some r)
      → e.llm_result
          (call_llm (review_request (Runner.run e u).1.task r) ∷ (Runner.run e u).1.trace)
        ≡ ok resp
      → starts_with (to_upper (trim_space resp.content)) "APPROVED" ≡ false
      → guidance_of (trim_space resp.content) ≡ some guidance
      → v.task ≡ improved attempt guidance (Runner.run e u).1.task
      → Reaches e w (suc attempt) v

-- A result is that of an attempt within the limit which the review approved; nothing is done after the
-- review but to notify. A verdict that does not approve and whose guidance cannot be cut out ends in a panic; else there
-- is an error and no result.
pub data IsLooped (e : Env) (limit : ℕ) (w : World) : Outcome → World → Type 0 where
  approved :
      (attempt : ℕ) (u v : World) (r : TaskResult) (resp : LlmResponse) (event : Event)
      → Reaches e w attempt u
      → attempt ≤ limit
      → (Runner.run e u).0 ≡ ok (some r)
      → e.llm_result
          (call_llm (review_request (Runner.run e u).1.task r) ∷ (Runner.run e u).1.trace)
        ≡ ok resp
      → starts_with (to_upper (trim_space resp.content)) "APPROVED" ≡ true
      → v.task ≡ (Runner.run e u).1.task
      → v.trace
        ≡ dispatch_now event
          ∷ call_llm (review_request (Runner.run e u).1.task r)
          ∷ (Runner.run e u).1.trace
      → IsLooped e limit w (ok (some r)) v
  panicked :
      (attempt : ℕ) (u v : World) (r : TaskResult) (resp : LlmResponse)
      → Reaches e w attempt u
      → attempt ≤ limit
      → (Runner.run e u).0 ≡ ok (some r)
      → e.llm_result
          (call_llm (review_request (Runner.run e u).1.task r) ∷ (Runner.run e u).1.trace)
        ≡ ok resp
      → starts_with (to_upper (trim_space resp.content)) "APPROVED" ≡ false
      → guidance_of (trim_space resp.content) ≡ none
      → IsLooped e limit w (err slice_panic) v
  not_approved : (m : String) (v : World) → IsLooped e limit w (err m) v
