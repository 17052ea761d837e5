-- ===== src/Phase/Runner/Endings.antt =====
-- What `Run` of internal/usecase/phase/runner.go achieves in its four iterations.
use agent_claw.Base.{
  List, ℕ, zero, suc, ◌+◌, ◌≤◌, ◌≡◌, refl, ap, subst, sym, ◌∙◌, inl, inr, String, Option, none,
  some, ◌==◌, if◌then◌else◌, Bool-cases, arith, length, ltb, eq_iff,
}
use agent_claw.Domain.Types.{
  Question, Task, TaskResult, PhaseCheckpoint, phase_understand, phase_clarify, phase_plan,
  phase_implement, phase_done,
}
use agent_claw.Port.{ok, err}
use agent_claw.Phase.Types.{Act, Env, World, PhaseResult}
use agent_claw.Phase.Helpers
use agent_claw.Phase.Keeping.{held, delete-task, held-delete, load-task}
use agent_claw.Phase.Understand.Endings.{
  IsUnderstood, next_phase, understood_task, run-IsUnderstood, failed,
}
use agent_claw.Phase.Clarify.Endings.{
  IsClarified, Settles, clarified, suspended, run-IsClarified, failed as not_clarified,
}
use agent_claw.Phase.Plan.Endings.{
  IsPlanned, approved, redirected, given_up, panicked, run-IsPlanned, failed as not_planned,
}
use agent_claw.Phase.Implement
use agent_claw.Phase.Implement.Endings.{
  IsImplemented, implemented_task, run-IsImplemented, failed as not_implemented,
}
use agent_claw.Phase.Runner.{
  Outcome, max_phase_iterations, on_error, parked, after_understand, after_clarify, after_plan,
  complete, after_implement, iteration, phase_loop, started, run,
}

-- The iterations that a task needs from a phase on, when no plan is redirected and no question asked.
abbrev pub iterations_needed : String → ℕ
iterations_needed phase =
    if phase == phase_understand
    then 3
    else if phase == phase_clarify
    then 3
    else if phase == phase_plan
    then 2
    else 1

-- A result with this many iterations left, from a task: the task is done, its checkpoint is gone, and the
-- redirects that were made and the iterations needed fit in the iterations.
abbrev pub Fits : Env → ℕ → Task → Outcome → World → Type 0
Fits e left t (ok (some r)) w =
    (w.task.redirect_count + iterations_needed t.phase ≤ left + t.redirect_count)
    × (w.task.phase ≡ phase_done)
    × (r.output ≡ w.task.output)
    × (held e w.task.id w.trace ≡ none)
Fits e left t (ok none) w = Unit
Fits e left t (err m) w = Unit

Fits-weaken :
    (e : Env) (left more : ℕ) (t u : Task) (o : Outcome) (w : World)
    → left + u.redirect_count + iterations_needed t.phase
      ≤ more + t.redirect_count + iterations_needed u.phase
    → Fits e left u o w
    → Fits e more t o w
Fits-weaken e left more t u (ok (some r)) w h f = (omega (arith, h, f.0), f.1, f.2, f.3)
Fits-weaken e left more t u (ok none) w h f = tt
Fits-weaken e left more t u (err m) w h f = tt

-- The iterations needed from the phases that follow.
needed-next_phase : (out : _) → 2 ≤ iterations_needed (next_phase out)
needed-next_phase out = elim (Bool-cases (ltb 0 (length out.questions))) [
  | inl asked ↦ rw asked (omega arith)
  | inr none_asked ↦ rw none_asked (omega arith)
]

module _ (e : Env) (left : ℕ) (t : Task) where
  after_understand-Fits :
      (next : Act Outcome) (result : PhaseResult) (w : World)
      → t.phase ≡ phase_understand
      → IsUnderstood e t result w
      → ((v : World) → Fits e left v.task (next v).0 (next v).1)
      → Fits e (suc left) t (after_understand next result w).0 (after_understand next result w).1
  unfolding after_understand on_error
  after_understand-Fits next _ _ p (understood_task out added cp w ans r f u y z q l h g) k =
      Fits-weaken e left (suc left) t w.task _ _
        (rw (p, f) (omega (arith, r, needed-next_phase out))) (k w)
  after_understand-Fits next _ _ p (failed m w) k = tt

  after_clarify-Fits :
      (next : Act Outcome) (asked : List Question) (redirects : ℕ) (result : PhaseResult)
      (w : World)
      → t.phase ≡ phase_clarify
      → redirects ≡ t.redirect_count
      → IsClarified e asked redirects result w
      → ((v : World) → Fits e left v.task (next v).0 (next v).1)
      → Fits e (suc left) t (after_clarify next result w).0 (after_clarify next result w).1
  unfolding after_clarify on_error parked
  after_clarify-Fits next asked redirects _ _ p c (clarified w f r s a) k =
      Fits-weaken e left (suc left) t w.task _ _ (rw (p, f) (omega (arith, r, c))) (k w)
  after_clarify-Fits next asked redirects _ _ p c
        (suspended done rest q r req event now before w s o t i a n h) k =
      tt
  after_clarify-Fits next asked redirects _ _ p c (not_clarified m w) k = tt

  after_plan-Fits :
      (next : Act Outcome) (result : PhaseResult) (w : World)
      → t.phase ≡ phase_plan
      → IsPlanned e t result w
      → ((v : World) → Fits e left v.task (next v).0 (next v).1)
      → Fits e (suc left) t (after_plan next result w).0 (after_plan next result w).1
  unfolding after_plan on_error
  after_plan-Fits next _ _ p (approved plan verdict w rv v s r f a i h) k =
      Fits-weaken e left (suc left) t w.task _ _ (rw (p, f) (omega (arith, r))) (k w)
  after_plan-Fits next _ _ p (redirected plan verdict guidance cp w rv v gd s r l f i h g) k =
      Fits-weaken e left (suc left) t w.task _ _ (rw (p, f) (omega (arith, r))) (k w)
  after_plan-Fits next _ _ p (given_up plan verdict w rv v r h) k = tt
  after_plan-Fits next _ _ p (panicked plan verdict w rv v gd) k = tt
  after_plan-Fits next _ _ p (not_planned m w) k = tt

  after_implement-Fits :
      (result : PhaseResult) (w : World)
      → t.phase ≡ phase_implement
      → IsImplemented e t result w
      → Fits e (suc left) t (after_implement e result w).0 (after_implement e result w).1
  unfolding after_implement on_error complete Implement.implemented Implement.result_of
  after_implement-Fits _ _ p (implemented_task resp ms s d before w h a k) =
      let kept = delete-task e w in
      (
        rw (p, ap (λ u. u.redirect_count) kept, ap (λ u. u.redirect_count) h) (omega arith),
        ap (λ u. u.phase) kept ∙ ap (λ u. u.phase) h,
        sym (ap (λ u. u.output) kept ∙ ap (λ u. u.output) h),
        subst (λ id. held e id (Helpers.delete e w).1.trace ≡ none) (sym (ap (λ u. u.id) kept))
            (held-delete e w),
      )
  after_implement-Fits _ _ p (not_implemented m w) = tt

abbrev FitsAt : Env → ℕ → Task → Outcome × World → Type 0
FitsAt e left t x = Fits e left t x.0 x.1

-- `m` fits from this world.
abbrev FitsFrom : Env → ℕ → World → Act Outcome → Type 0
FitsFrom e left w m = Fits e left w.task (m w).0 (m w).1

FitsAt-choice :
    (e : Env) (left : ℕ) (t : Task) (phase : String) (x y : Outcome × World)
    → (t.phase ≡ phase → FitsAt e left t x)
    → FitsAt e left t y
    → FitsAt e left t (if t.phase == phase then x else y)
FitsAt-choice e left t phase x y h k = elim (Bool-cases (t.phase == phase)) [
  | inl same ↦
      subst (λ b. FitsAt e left t (if b then x else y)) (sym same)
        (h ((eq_iff t.phase phase).0 same))
  | inr other ↦ subst (λ b. FitsAt e left t (if b then x else y)) (sym other) k
]

module _ (e : Env) (settles : Settles e) where
  iteration-Fits :
      (left : ℕ) (checkpoint : Option PhaseCheckpoint) (cleared kept : Act Outcome) (w : World)
      → ((v : World) → FitsFrom e left v cleared)
      → ((v : World) → FitsFrom e left v kept)
      → FitsFrom e (suc left) w (iteration e checkpoint cleared kept)
  unfolding iteration
  iteration-Fits left checkpoint cleared kept w c k =
      FitsAt-choice e (suc left) w.task phase_understand _ _
        (λ p. after_understand-Fits e left w.task cleared _ _ p (run-IsUnderstood e checkpoint w) c)
        (FitsAt-choice e (suc left) w.task phase_clarify _ _
          (λ p.
            after_clarify-Fits e left w.task kept _ _ _ _ p refl (run-IsClarified e w settles) k)
          (FitsAt-choice e (suc left) w.task phase_plan _ _
            (λ p. after_plan-Fits e left w.task cleared _ _ p (run-IsPlanned e checkpoint w) c)
            (FitsAt-choice e (suc left) w.task phase_implement _ _
              (λ p. after_implement-Fits e left w.task _ _ p (run-IsImplemented e w))
              (FitsAt-choice e (suc left) w.task phase_done _ _ (λ p. tt) tt))))

  phase_loop-Fits :
      (left : ℕ) (checkpoint : Option PhaseCheckpoint) (w : World)
      → FitsFrom e left w (phase_loop e left checkpoint)
  unfolding phase_loop
  phase_loop-Fits zero checkpoint w = tt
  phase_loop-Fits (suc left) checkpoint w =
      iteration-Fits left checkpoint _ _ w (phase_loop-Fits left none)
        (phase_loop-Fits left checkpoint)

-- With an escalator that settles every question it answers, a run that returns a result leaves the
-- task done with that output and, in a store that takes every save and delete, no checkpoint; and it has
-- redirected plans at most as often as four iterations allow beside those that the task needed from its first phase
-- on.
pub run-Fits :
    (e : Env) (w : World)
    → Settles e
    → Fits e max_phase_iterations (started e w).task (run e w).0 (run e w).1
unfolding run
run-Fits e w settles =
    subst (λ t. Fits e max_phase_iterations t (run e w).0 (run e w).1) (load-task e (started e w))
      (phase_loop-Fits e settles max_phase_iterations (Helpers.load e (started e w)).0
        (Helpers.load e (started e w)).1)

started-new :
    (e : Env) (w : World)
    → w.task.phase ≡ ""
    → ((started e w).task.phase ≡ phase_understand)
      × ((started e w).task.redirect_count ≡ w.task.redirect_count)
unfolding started
started-new e w new =
    let fresh : World = record w {
      task = record w.task { phase = phase_understand; phase_started_at = e.now w.trace };
    } in
    let eq = ap (λ p. if p == "" then fresh else w) new in
    (ap (λ v. v.task.phase) eq, ap (λ v. v.task.redirect_count) eq)

le_one :
    (made before counted : ℕ) (phase : String)
    → phase ≡ phase_understand
    → before ≡ counted
    → made + iterations_needed phase ≤ max_phase_iterations + before
    → made ≤ counted + 1
le_one made before counted phase p c h =
    omega (arith, c, subst (λ q. made + iterations_needed q ≤ max_phase_iterations + before) p h)

-- With such an escalator, a run that takes a new task to a result has redirected its plan at most
-- once.
run-eq-ok→le_one :
    (e : Env) (w : World) (r : TaskResult)
    → Settles e
    → w.task.phase ≡ ""
    → (run e w).0 ≡ ok (some r)
    → (run e w).1.task.redirect_count ≤ w.task.redirect_count + 1
run-eq-ok→le_one e w r settles new done =
    let fits =
      subst (λ o. Fits e max_phase_iterations (started e w).task o (run e w).1) done
        (run-Fits e w settles) in
    let (phase, count) = started-new e w new in le_one _ _ _ _ phase count fits.0
