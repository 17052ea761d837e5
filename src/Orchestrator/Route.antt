-- ===== src/Orchestrator/Route.antt =====
-- internal/usecase/orchestrator/router.go: which orchestrator a task goes to.
pub mod Choice
use agent_claw.Base.{
  ℕ, String, Bool, true, false, ◌||◌, List, [], ◌∷◌, Option, none, some, ◌==◌, ◌⧺◌, if◌then◌else◌,
}
use agent_claw.Domain.Types.{Task, TaskResult}
use agent_claw.Port.{Result, ok, err}
use agent_claw.Phase.Types.{World}
use agent_claw.Phase.Types as phase
use agent_claw.Phase.Runner
use agent_claw.Phase.Runner.{Outcome}
use agent_claw.Orchestrator.Loop
use agent_claw.Orchestrator.Parallel
use agent_claw.Orchestrator.Parallel.{Memory, Ran}
use agent_claw.Orchestrator.Hierarchical

-- The orchestrators of `OrchestratorRouter`: their collaborators and limits.
pub record Env : Type 0 where
  pub hierarchical : Hierarchical.Env
  pub parallel : Parallel.Env
  pub concurrency : String
  pub phases : phase.Env
  pub max_loops : ℕ
  pub memory : Memory

-- The two results of `Route`.
pub record Routed : Type 0 where
  pub results : List (Option TaskResult)
  pub error : Option String

-- `slices.Contains`.
holds : List String → String → Bool
holds [] tag = false
holds (t ∷ tags) tag = t == tag || holds tags tag

unfoldable pub is_broken_down : Task → Bool
is_broken_down task = task.agent_role == "idea" || task.agent_role == "architect"

unfoldable pub is_looped : Task → Bool
unfolding holds
is_looped task = holds task.tags "loop" || task.complexity == "L"

-- The results of the three orchestrators, as `Route` returns them.
unfoldable pub of_ran : Ran → Routed
of_ran ran = record { results = ran.results; error = ran.error }

unfoldable pub of_outcome : Outcome → Routed
of_outcome (err m) = record { results = []; error = some m }
of_outcome (ok none) = record { results = []; error = none }
of_outcome (ok (some r)) = record { results = some r ∷ []; error = none }

unfoldable pub by_hierarchy : Env → World → Routed
unfolding of_ran
by_hierarchy e w =
    of_ran (Hierarchical.run e.hierarchical e.parallel e.concurrency w.task e.memory []).0

unfoldable pub by_loop : Env → World → Routed
unfolding of_outcome
by_loop e w = of_outcome (Loop.run e.phases e.max_loops w).0

unfoldable pub by_phases : Env → World → Routed
unfolding of_outcome
by_phases e w = of_outcome (Runner.run e.phases w).0

-- `Route`.
unfoldable pub route : Env → World → Routed
unfolding by_hierarchy by_loop by_phases
route e w =
    if is_broken_down w.task
    then by_hierarchy e w
    else if is_looped w.task
    then by_loop e w
    else by_phases e w

-- `RouteInfo`.
unfoldable pub route_info : Task → String
route_info task =
    if is_broken_down task
    then "hierarchical"
    else if is_looped task
    then "loop"
    else "single-phase (role=" ⧺ task.agent_role ⧺ ")"
