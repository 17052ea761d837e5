-- ===== src/Phase/Implement/Endings.antt =====
-- How `Run` of internal/usecase/phase/implement.go ends.
use agent_claw.Base.{ℕ, ◌≡◌, refl, ap, subst, String, ◌∷◌, Option, none, some}
use agent_claw.Domain.Types.{Task, Event}
use agent_claw.Port.{LlmResponse, Result, ok, err}
use agent_claw.Phase.Types.{
  Env, World, PhaseResult, Trace, done_result, error_result, dispatch, save_task, call_llm,
}
use agent_claw.Phase.Helpers.{dispatch_event}
use agent_claw.Phase.Keeping.{cons-path}
use agent_claw.Phase.Implement.{
  implement_request, implemented, result_of, after_save, save_task_step, after_call, run,
}

-- The implementation ends with a result, the model's answer to the request for this task; the task
-- is done with that output, and it was saved so; or a collaborator fails.
pub data IsImplemented (e : Env) (t : Task) : PhaseResult → World → Type 0 where
  implemented_task :
      (resp : LlmResponse) (ms : ℕ) (started done : Event) (before : Trace) (w : World)
      → w.task ≡ implemented resp t
      → e.llm_result (call_llm (implement_request e t) ∷ dispatch started ∷ before) ≡ ok resp
      → w.trace
        ≡ dispatch done
          ∷ save_task w.task
          ∷ call_llm (implement_request e t)
          ∷ dispatch started
          ∷ before
      → IsImplemented e t (done_result (some (result_of resp ms w.task))) w
  failed : (m : String) (w : World) → IsImplemented e t (error_result m) w

module _ (e : Env) (t : Task) (started : Event) (before : Trace) where
  after_save-IsImplemented :
      (resp : LlmResponse) (ms : ℕ) (saved : Option String) (w : World)
      → w.task ≡ implemented resp t
      → e.llm_result (call_llm (implement_request e t) ∷ dispatch started ∷ before) ≡ ok resp
      → w.trace ≡ save_task w.task ∷ call_llm (implement_request e t) ∷ dispatch started ∷ before
      → IsImplemented e t (after_save e resp ms saved w).0 (after_save e resp ms saved w).1
  unfolding after_save dispatch_event
  after_save-IsImplemented resp ms (some m) w h a k = failed _ w
  after_save-IsImplemented resp ms none w h a k =
      implemented_task resp ms started _ before _ h a (cons-path k)

  after_call-IsImplemented :
      (start : ℕ) (answer : Result LlmResponse) (w : World)
      → w.task ≡ t
      → e.llm_result w.trace ≡ answer
      → w.trace ≡ call_llm (implement_request e t) ∷ dispatch started ∷ before
      → IsImplemented e t (after_call e start answer w).0 (after_call e start answer w).1
  unfolding after_call save_task_step
  after_call-IsImplemented start (err m) w h a k = failed _ w
  after_call-IsImplemented start (ok resp) w h a k =
      after_save-IsImplemented resp _ _ _ (ap (λ u. implemented resp u) h)
        (subst (λ u. e.llm_result u ≡ ok resp) k a) (cons-path k)

-- The implement phase ends in one of the ways of `IsImplemented`.
pub run-IsImplemented : (e : Env) (w : World) → IsImplemented e w.task (run e w).0 (run e w).1
unfolding run dispatch_event
run-IsImplemented e w = after_call-IsImplemented e w.task _ w.trace _ _ _ refl refl refl
