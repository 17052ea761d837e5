-- ===== src/Phase/Runner.antt =====
-- internal/usecase/phase/runner.go.
pub mod Endings
pub mod Retries
use agent_claw.Base.{
  ℕ, zero, suc, String, Bool, true, false, List, [], ◌∷◌, Option, none, some, ◌==◌, ◌⧺◌,
  if◌then◌else◌, State, pure, ◌>>=◌, ◌>>◌, itoa,
}
use agent_claw.Domain.Types.{
  Task, TaskResult, PhaseCheckpoint, phase_understand, phase_clarify, phase_plan, phase_implement,
  phase_done,
}
use agent_claw.Port.{Result, ok, err}
use agent_claw.Phase.Types.{Env, Act, World, PhaseResult, update}
use agent_claw.Phase.Helpers
use agent_claw.Phase.Understand
use agent_claw.Phase.Clarify
use agent_claw.Phase.Plan
use agent_claw.Phase.Implement

-- What `Run` returns: the result of the task, or none when the task is suspended, or an error.
abbrev pub Outcome : Type 0
Outcome = Result (Option TaskResult)

abbrev pub max_phase_iterations : ℕ
max_phase_iterations = 4

-- The ends of the four cases; `next` is the rest of the loop.
on_error : Option String → Act Outcome → Act Outcome
on_error (some m) otherwise = pure (err m)
on_error none otherwise = otherwise

parked : Act Outcome
parked = pure (ok none)

after_understand : Act Outcome → PhaseResult → Act Outcome
unfolding on_error
after_understand next result = on_error result.error next

after_clarify : Act Outcome → PhaseResult → Act Outcome
unfolding on_error parked
after_clarify next result = on_error result.error (if result.suspended then parked else next)

after_plan : Act Outcome → PhaseResult → Act Outcome
unfolding on_error parked
after_plan next result =
    on_error result.error
      (if result.restarted then next else if result.suspended then parked else next)

complete : Env → Option TaskResult → Act Outcome
complete e result = do Helpers.delete e; pure (ok result)

after_implement : Env → PhaseResult → Act Outcome
unfolding on_error complete
after_implement e result = on_error result.error (complete e result.task_result)

-- One iteration: `cleared` is the rest of the loop without a checkpoint, `kept` with this one.
iteration : Env → Option PhaseCheckpoint → Act Outcome → Act Outcome → Act Outcome
unfolding after_understand after_clarify after_plan after_implement
iteration e checkpoint cleared kept w =
    let understand : Act Outcome = (do
      result ← Understand.run e checkpoint
      after_understand cleared result) in
    let clarify : Act Outcome = (do result ← Clarify.run e; after_clarify kept result) in
    let plan : Act Outcome = (do result ← Plan.run e checkpoint; after_plan cleared result) in
    let implement : Act Outcome = (do result ← Implement.run e; after_implement e result) in
    if w.task.phase == phase_understand
    then understand w
    else if w.task.phase == phase_clarify
    then clarify w
    else if w.task.phase == phase_plan
    then plan w
    else if w.task.phase == phase_implement
    then implement w
    else if w.task.phase == phase_done
    then (err "task already done", w)
    else (err ("unknown phase: " ⧺ w.task.phase), w)

-- The loop, with the iterations that are left and the checkpoint.
unfoldable pub phase_loop : Env → ℕ → Option PhaseCheckpoint → Act Outcome
unfolding iteration
phase_loop e zero checkpoint =
    pure (err ("phase loop exceeded max iterations (" ⧺ itoa max_phase_iterations ⧺ ")"))
phase_loop e (suc left) checkpoint =
    iteration e checkpoint (phase_loop e left none) (phase_loop e left checkpoint)

-- A task without a phase starts with the first.
unfoldable pub started : Env → World → World
started e w =
    if w.task.phase == ""
    then record w {
      task = record w.task { phase = phase_understand; phase_started_at = e.now w.trace };
    }
    else w

-- `Run`.
unfoldable pub run : Env → Act Outcome
unfolding phase_loop started
run e w =
    (do checkpoint ← Helpers.load e; phase_loop e max_phase_iterations checkpoint) (started e w)
