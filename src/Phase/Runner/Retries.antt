-- ===== src/Phase/Runner/Retries.antt =====
-- What becomes of the guidance of a redirect (internal/usecase/phase/runner.go, plan.go).
use agent_claw.Base.{
  ℕ, suc, ◌≡◌, refl, ◌∙◌, String, true, false, Option, none, if◌then◌else◌, ◌==◌, arith,
}
use agent_claw.Domain.Types.{Task, PhaseCheckpoint, phase_plan, phase_understand, phase_clarify}
use agent_claw.Phase.Types.{Act, Env, World, PhaseResult}
use agent_claw.Phase.Keeping.{Same}
use agent_claw.Phase.Plan
use agent_claw.Phase.Plan.{plan_request, prev_guidance, build_qa_context}
use agent_claw.Phase.Plan.Endings.{
  IsPlanned, approved, redirected, given_up, panicked, failed, run-IsPlanned,
}
use agent_claw.Phase.Runner.{Outcome, on_error, after_plan, iteration, phase_loop}

-- The plan's request reads the core of the task only.
plan_request-Same :
    (e : Env) (guidance : String) (t u : Task)
    → Same t u
    → plan_request e u guidance ≡ plan_request e t guidance
unfolding plan_request build_qa_context
plan_request-Same e guidance t u s = cc s

no : false ≡ true → ⊥
no h = ground arith

IsPlanned-restarted :
    (e : Env) (t : Task) (r : PhaseResult) (w : World)
    → IsPlanned e t r w
    → r.restarted ≡ true
    → Same t w.task × (r.error ≡ none)
IsPlanned-restarted e t _ _ (approved plan verdict w rv v s c f a i h) p = absurd (no p)
IsPlanned-restarted e t _ _ (redirected plan verdict guidance cp w rv v gd s c l f i h g) p =
    (s, refl)
IsPlanned-restarted e t _ _ (given_up plan verdict w rv v c h) p = absurd (no p)
IsPlanned-restarted e t _ _ (panicked plan verdict w rv v gd) p = absurd (no p)
IsPlanned-restarted e t _ _ (failed m w) p = absurd (no p)

plan_branch :
    {A : Type 0} (phase : String) (a b c d : A)
    → phase ≡ phase_plan
    → (if phase == phase_understand
        then a
        else if phase == phase_clarify
        then b
        else if phase == phase_plan
        then c
        else d)
      ≡ c
plan_branch phase a b c d p = rw p refl

after_plan-restarted :
    (next : Act Outcome) (result : PhaseResult) (w : World)
    → result.restarted ≡ true
    → result.error ≡ none
    → after_plan next result w ≡ next w
unfolding after_plan on_error
after_plan-restarted next result w h n = simp (h, n)

module _ (e : Env) (left : ℕ) (checkpoint : Option PhaseCheckpoint) (w : World) where
  -- A plan attempt of a run that is redirected is followed by the rest of the loop without a
  -- checkpoint, so with the request for the same task and no guidance.
  pub phase_loop-restarted :
      w.task.phase ≡ phase_plan
      → (Plan.run e checkpoint w).0.restarted ≡ true
      → (phase_loop e (suc left) checkpoint w ≡ phase_loop e left none (Plan.run e checkpoint w).1)
        × (plan_request e (Plan.run e checkpoint w).1.task (prev_guidance none)
            ≡ plan_request e w.task "")
  unfolding phase_loop iteration after_plan on_error prev_guidance
  phase_loop-restarted p restarted =
      let (same, no_error) =
        IsPlanned-restarted e w.task _ _ (run-IsPlanned e checkpoint w) restarted in
      (
        plan_branch w.task.phase _ _ _ _ p
            ∙ after_plan-restarted (phase_loop e left none) (Plan.run e checkpoint w).0 _ restarted
                no_error,
        plan_request-Same e "" w.task _ same,
      )
