-- ===== src/Phase/Plan/Endings.antt =====
-- How `Run` of internal/usecase/phase/plan.go ends.
use agent_claw.Base.{
  ℕ, ◌+◌, ◌≤◌, ◌<◌, ◌≡◌, refl, ◌∙◌, ap, sym, subst, text-cases, Dict, inl, inr, String, false, [],
  ◌∷◌, Option, none, some, itoa, if◌then◌else◌, Bool-cases, arith, leb, lookup, trim_space,
  to_upper, starts_with, true, Bool, ◌++◌,
}
use agent_claw.Domain.Models.{supervisor_model}
use agent_claw.Domain.Types.{Task, PhaseCheckpoint, phase_plan, phase_implement, get_accumulated}
use agent_claw.Port.{LlmResponse, Result, ok, err}
use agent_claw.Phase.Types.{
  Env, World, Trace, Effect, PhaseResult, PlanOutput, done_result, error_result, restarted_result,
  call_llm, slice_panic,
}
use agent_claw.Phase.Helpers
use agent_claw.Phase.Helpers.{checkpoint_of, dispatch_event, dispatch_critical}
use agent_claw.Phase.Keeping.{
  held, Same, Same-id, save-task, delete-task, held-delete, held-save, cons-path, save-trace,
  delete-trace,
}
use agent_claw.Phase.Plan.{
  save_task_step, after_approved_save, approve, guidance_of, give_up, after_redirect_save,
  plan_again, after_guidance, redirect, is_approved, review_request, after_review, after_parse,
  after_plan, run, prev_guidance,
}

-- The supervisor's review of this plan of the task has given this verdict, and these calls were made up to now.
abbrev pub Reviewed : Env → Task → PlanOutput → String → Trace → Type 0
Reviewed e t plan verdict trace =
    (u : Task) × (resp : LlmResponse) × (before : Trace) × (after : Trace) × Same t u
    × (e.llm_result (call_llm (review_request e u plan) ∷ before) ≡ ok resp)
    × (trim_space resp.content ≡ verdict)
    × (trace ≡ after ++ call_llm (review_request e u plan) ∷ before)

-- The ways the plan phase ends at a task: the supervisor's verdict on the plan begins with the word APPROVED, in any
-- case, and the plan is kept, the checkpoint is gone and the task goes on to the implementation; the verdict does not
-- and the plan is redirected, at most the second time, the task stays in the phase without the plan, and the
-- checkpoint that is held gives the guidance of the verdict; or it is given up at the third redirect; or the
-- guidance cannot be cut out of such a verdict and the program panics; or a collaborator fails.
pub data IsPlanned (e : Env) (t : Task) : PhaseResult → World → Type 0 where
  approved :
      (plan : PlanOutput) (verdict : String) (w : World)
      → Reviewed e t plan verdict w.trace
      → starts_with (to_upper verdict) "APPROVED" ≡ true
      → Same t w.task
      → w.task.redirect_count ≡ t.redirect_count
      → w.task.phase ≡ phase_implement
      → w.task.plan_approved_by ≡ supervisor_model e.agent.model
      → w.task.implement_plan ≡ plan.plan
      → held e t.id w.trace ≡ none
      → IsPlanned e t (done_result none) w
  redirected :
      (plan : PlanOutput) (verdict guidance : String) (cp : PhaseCheckpoint) (w : World)
      → Reviewed e t plan verdict w.trace
      → starts_with (to_upper verdict) "APPROVED" ≡ false
      → guidance_of verdict ≡ some guidance
      → Same t w.task
      → w.task.redirect_count ≡ t.redirect_count + 1
      → w.task.redirect_count < 3
      → w.task.phase ≡ phase_plan
      → w.task.implement_plan ≡ ""
      → held e t.id w.trace ≡ (if e.has_checkpoint then some cp else none)
      → prev_guidance (some cp) ≡ guidance
      → IsPlanned e t restarted_result w
  given_up :
      (plan : PlanOutput) (verdict : String) (w : World)
      → Reviewed e t plan verdict w.trace
      → starts_with (to_upper verdict) "APPROVED" ≡ false
      → w.task.redirect_count ≡ t.redirect_count + 1
      → 3 ≤ w.task.redirect_count
      → IsPlanned e t (error_result "plan rejected 3 times") w
  panicked :
      (plan : PlanOutput) (verdict : String) (w : World)
      → Reviewed e t plan verdict w.trace
      → starts_with (to_upper verdict) "APPROVED" ≡ false
      → guidance_of verdict ≡ none
      → IsPlanned e t (error_result slice_panic) w
  failed : (m : String) (w : World) → IsPlanned e t (error_result m) w

module _ (e : Env) (t : Task) (plan : PlanOutput) (verdict : String) where
  Reviewed-∷ :
      (x : Effect) (tr : Trace) → Reviewed e t plan verdict tr → Reviewed e t plan verdict (x ∷ tr)
  Reviewed-∷ x tr (u, resp, before, after, s, a, v, h) =
      (u, resp, before, x ∷ after, s, a, v, cons-path h)

  Reviewed-if :
      (b : Bool) (x : Effect) (tr : Trace)
      → Reviewed e t plan verdict tr
      → Reviewed e t plan verdict (if b then x ∷ tr else tr)
  Reviewed-if true x tr r = Reviewed-∷ x tr r
  Reviewed-if false x tr r = r

module _ (e : Env) (t : Task) where
  after_approved_save-IsPlanned :
      (plan : PlanOutput) (verdict : String) (saved : Option String) (w : World)
      → Reviewed e t plan verdict w.trace
      → starts_with (to_upper verdict) "APPROVED" ≡ true
      → w.task.implement_plan ≡ plan.plan
      → Same t w.task
      → w.task.redirect_count ≡ t.redirect_count
      → w.task.phase ≡ phase_implement
      → w.task.plan_approved_by ≡ supervisor_model e.agent.model
      → IsPlanned e t (after_approved_save e plan saved w).0 (after_approved_save e plan saved w).1
  unfolding after_approved_save dispatch_event
  after_approved_save-IsPlanned plan verdict (some m) w rv v i s r p a = failed _ w
  after_approved_save-IsPlanned plan verdict none w rv v i s r p a =
      let kept = delete-task e w in
      let deleted =
        subst (λ tr. Reviewed e t plan verdict tr) (sym (delete-trace e w))
          (Reviewed-if e t plan verdict e.has_checkpoint _ w.trace rv) in
      approved plan verdict _
        (Reviewed-∷ e t plan verdict _ _ (Reviewed-∷ e t plan verdict _ _ deleted)) v
        (subst (λ u. Same t u) (sym kept) s) (ap (λ u. u.redirect_count) kept ∙ r)
        (ap (λ u. u.phase) kept ∙ p) (ap (λ u. u.plan_approved_by) kept ∙ a)
        (ap (λ u. u.implement_plan) kept ∙ i)
        (subst (λ id. held e id (Helpers.delete e w).1.trace ≡ none) (Same-id t w.task s)
          (held-delete e w))

  after_redirect_save-IsPlanned :
      (plan : PlanOutput) (verdict guidance : String) (cp : PhaseCheckpoint) (count : ℕ)
      (saved : Option String) (w : World)
      → Reviewed e t plan verdict w.trace
      → starts_with (to_upper verdict) "APPROVED" ≡ false
      → guidance_of verdict ≡ some guidance
      → Same t w.task
      → w.task.redirect_count ≡ t.redirect_count + 1
      → w.task.redirect_count < 3
      → w.task.phase ≡ phase_plan
      → w.task.implement_plan ≡ ""
      → held e t.id w.trace ≡ (if e.has_checkpoint then some cp else none)
      → prev_guidance (some cp) ≡ guidance
      → IsPlanned e t
          (after_redirect_save e guidance count saved w).0
          (after_redirect_save e guidance count saved w).1
  unfolding after_redirect_save dispatch_event
  after_redirect_save-IsPlanned plan verdict guidance cp count (some m) w rv v gd s r l p i h g =
      failed _ w
  after_redirect_save-IsPlanned plan verdict guidance cp count none w rv v gd s r l p i h g =
      redirected plan verdict guidance cp _
        (Reviewed-∷ e t plan verdict _ _ (Reviewed-∷ e t plan verdict _ _ rv)) v gd s r l p i h g

  -- The checkpoint of a redirect.
  abbrev redirect_notes : String → String → ℕ → Dict String
  redirect_notes understanding guidance count =
      ("understanding", understanding)
      ∷ ("opus_guidance", guidance)
      ∷ ("redirect_count", itoa count)
      ∷ []

  prev_guidance-redirect :
      (understanding guidance id : String) (count : ℕ)
      → prev_guidance (
          some (
            checkpoint_of e phase_plan 0 "redirect"
              (redirect_notes understanding guidance count)
              id))
        ≡ guidance
  unfolding prev_guidance get_accumulated lookup
  prev_guidance-redirect understanding guidance id count = elim (text-cases guidance "") [
    | inl empty ↦ rw empty refl
    | inr other ↦ rw other refl
  ]

  plan_again-IsPlanned :
      (plan : PlanOutput) (verdict guidance : String) (count : ℕ) (w : World)
      → Reviewed e t plan verdict w.trace
      → starts_with (to_upper verdict) "APPROVED" ≡ false
      → guidance_of verdict ≡ some guidance
      → Same t w.task
      → w.task.redirect_count ≡ t.redirect_count + 1
      → w.task.redirect_count < 3
      → IsPlanned e t (plan_again e guidance count w).0 (plan_again e guidance count w).1
  unfolding plan_again save_task_step
  plan_again-IsPlanned plan verdict guidance count w rv v gd s r l =
      let u : World = record w {
        task = record w.task { implement_plan = ""; phase = phase_plan };
      } in
      let notes = redirect_notes w.task.understanding guidance count in
      let cp = checkpoint_of e phase_plan 0 "redirect" notes w.task.id in
      let kept = save-task e u phase_plan 0 "redirect" notes in
      let saved =
        subst (λ tr. Reviewed e t plan verdict tr)
          (sym (save-trace e u phase_plan 0 "redirect" notes))
          (Reviewed-if e t plan verdict e.has_checkpoint _ w.trace rv) in
      after_redirect_save-IsPlanned plan verdict guidance cp count _ _
        (Reviewed-∷ e t plan verdict _ _ saved) v gd (subst (λ k. Same t k) (sym kept) s)
        (ap (λ k. k.redirect_count) kept ∙ r)
        (subst (λ n. n < 3) (sym (ap (λ k. k.redirect_count) kept)) l) (ap (λ k. k.phase) kept)
        (ap (λ k. k.implement_plan) kept)
        (subst
          (λ id.
            held e id (Helpers.save e phase_plan 0 "redirect" notes u).1.trace
            ≡ (if e.has_checkpoint then some cp else none))
          (Same-id t w.task s) (held-save e u phase_plan 0 "redirect" notes))
        (prev_guidance-redirect w.task.understanding guidance w.task.id count)

  after_guidance-IsPlanned :
      (plan : PlanOutput) (verdict : String) (found : Option String) (w : World)
      → Reviewed e t plan verdict w.trace
      → starts_with (to_upper verdict) "APPROVED" ≡ false
      → guidance_of verdict ≡ found
      → Same t w.task
      → w.task.redirect_count ≡ t.redirect_count + 1
      → IsPlanned e t (after_guidance e found w).0 (after_guidance e found w).1
  unfolding after_guidance give_up dispatch_critical
  after_guidance-IsPlanned plan verdict none w rv v gd s r = panicked plan verdict w rv v gd
  after_guidance-IsPlanned plan verdict (some guidance) w rv v gd s r =
      elim (Bool-cases (leb 3 w.task.redirect_count)) [
        | inl three ↦ rw three (
            given_up plan verdict _ (Reviewed-∷ e t plan verdict _ _ rv) v r
              (ground (arith, three)))
        | inr fewer ↦
            rw fewer
              (plan_again-IsPlanned plan verdict guidance _ w rv v gd s r (ground (arith, fewer)))
      ]

  after_review-IsPlanned :
      (plan : PlanOutput) (reviewed : Result LlmResponse) (before : Trace) (w : World)
      → Same t w.task
      → w.task.redirect_count ≡ t.redirect_count
      → w.task.implement_plan ≡ plan.plan
      → w.trace ≡ call_llm (review_request e w.task plan) ∷ before
      → e.llm_result w.trace ≡ reviewed
      → IsPlanned e t (after_review e plan reviewed w).0 (after_review e plan reviewed w).1
  unfolding after_review approve save_task_step redirect is_approved
  after_review-IsPlanned plan (err m) before w s r i h a = failed _ w
  after_review-IsPlanned plan (ok resp) before w s r i h a =
      let verdict = trim_space resp.content in
      let rv : Reviewed e t plan verdict w.trace =
        (w.task, resp, before, [], s, ap e.llm_result (sym h) ∙ a, refl, h) in
      elim (Bool-cases (starts_with (to_upper verdict) "APPROVED")) [
        | inl good ↦ rw good (
            after_approved_save-IsPlanned plan verdict _ _ (Reviewed-∷ e t plan verdict _ _ rv) good
              i s r refl refl)
        | inr bad ↦ rw bad (
            after_guidance-IsPlanned plan verdict _
              (record w { task = record w.task { redirect_count = w.task.redirect_count + 1 } }) rv
              bad refl s (omega (arith, r)))
      ]

  after_parse-IsPlanned :
      (parsed : Result PlanOutput) (w : World)
      → Same t w.task
      → w.task.redirect_count ≡ t.redirect_count
      → IsPlanned e t (after_parse e parsed w).0 (after_parse e parsed w).1
  unfolding after_parse dispatch_event
  after_parse-IsPlanned (err m) w s r = failed _ w
  after_parse-IsPlanned (ok plan) w s r =
      let kept = save-task e _ phase_plan 1 "review_plan" _ in
      after_review-IsPlanned plan _ _ _ (subst (λ k. Same t k) (sym kept) s)
        (ap (λ k. k.redirect_count) kept ∙ r) (ap (λ k. k.implement_plan) kept) refl refl

  after_plan-IsPlanned :
      (planned : Result LlmResponse) (w : World)
      → Same t w.task
      → w.task.redirect_count ≡ t.redirect_count
      → IsPlanned e t (after_plan e planned w).0 (after_plan e planned w).1
  unfolding after_plan
  after_plan-IsPlanned (err m) w s r = failed _ w
  after_plan-IsPlanned (ok resp) w s r = after_parse-IsPlanned _ w s r

-- The plan phase ends in one of the ways of `IsPlanned`, whatever the checkpoint and the collaborators' answers are:
-- the plan is approved only by a verdict of the supervisor on it that begins with APPROVED, and is redirected only by
-- one that does not, with the guidance of that verdict.
pub run-IsPlanned :
    (e : Env) (checkpoint : Option PhaseCheckpoint) (w : World)
    → IsPlanned e w.task (run e checkpoint w).0 (run e checkpoint w).1
unfolding run
run-IsPlanned e checkpoint w =
    let kept = save-task e w phase_plan 0 "generate_plan" _ in
    after_plan-IsPlanned e w.task _ _ (subst (λ k. Same w.task k) (sym kept) refl)
      (ap (λ k. k.redirect_count) kept)
