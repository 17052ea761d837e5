-- ===== src/Orchestrator/Parallel.antt =====
-- internal/usecase/orchestrator/parallel.go: tasks run at once, and the failure of one does not stop the
-- others. Each goroutine has a task of its own, so its run is a function of its place and of what its
-- collaborators answer it, whatever the goroutines do meanwhile.
pub mod Report
use agent_claw.Base.{
  ℕ, zero, suc, String, Bool, false, List, [], ◌∷◌, Option, none, some, ◌⧺◌, if◌then◌else◌, itoa,
  join, length, map,
}
use agent_claw.Domain.Models.{worker_model_for_complexity}
use agent_claw.Domain.Types.{Task, TaskResult, Event, Time, AgentConfig, status_channel}
use agent_claw.Port.{Result, ok, err}
use agent_claw.Phase.Types.{World}
use agent_claw.Phase.Types as phase
use agent_claw.Phase.Runner
use agent_claw.Phase.Runner.{Outcome}

abbrev pub default_max_concurrency : ℕ
default_max_concurrency = 4

-- `MemoryContext`, as far as it is read.
pub record Memory : Type 0 where
  pub project_doc : String
  pub agent_doc : String

-- What the collaborators answer to the goroutine at a place; the order in which the goroutines report
-- their errors; the clock at the start and the end.
pub record Env : Type 0 where
  pub phases : ℕ → phase.Env
  pub in_order : List String → List String
  pub started_at : Time
  pub ended_at : Time

-- The two results of `Run`, and the events it dispatched, the newest first.
pub record Ran : Type 0 where
  pub results : List (Option TaskResult)
  pub error : Option String
  pub events : List Event

-- `modelForTask`.
unfoldable pub model_for_task : Task → String
model_for_task task = worker_model_for_complexity task.complexity

-- The context of a goroutine: it has no checkpoint store.
unfoldable pub context_of : Env → Memory → ℕ → Task → phase.Env
unfolding model_for_task
context_of e mem i task = record (e.phases i) {
  agent = record { id = task.agent_id; role = task.agent_role; model = model_for_task task };
  project_doc = mem.project_doc;
  agent_doc = mem.agent_doc;
  has_checkpoint = false;
}

-- What the runner returns to the goroutine at a place. A panic in it would end the process with all goroutines; it is
-- an error of this one here.
unfoldable pub outcome_at : Env → Memory → ℕ → Task → Outcome
unfolding context_of
outcome_at e mem i task =
    (Runner.run (context_of e mem i task) (record { task = task; trace = [] })).0

-- The entry of `results` that a goroutine leaves.
unfoldable pub entry : Outcome → Option TaskResult
entry (ok r) = r
entry (err m) = none

unfoldable pub results_from : Env → Memory → ℕ → List Task → List (Option TaskResult)
unfolding entry
results_from e mem i [] = []
results_from e mem i (task ∷ tasks) =
    entry (outcome_at e mem i task) ∷ results_from e mem (suc i) tasks

add_error : Task → Outcome → List String → List String
add_error task (ok r) errs = errs
add_error task (err m) errs = ("task " ⧺ task.id ⧺ " (" ⧺ task.title ⧺ "): " ⧺ m) ∷ errs

-- The errors, by the places of their tasks.
unfoldable pub errors_from : Env → Memory → ℕ → List Task → List String
unfolding add_error
errors_from e mem i [] = []
errors_from e mem i (task ∷ tasks) =
    add_error task (outcome_at e mem i task) (errors_from e mem (suc i) tasks)

-- The count of the results that are not nil.
unfoldable pub completed : List (Option TaskResult) → ℕ
completed [] = 0
completed (none ∷ results) = completed results
completed (some r ∷ results) = suc (completed results)

combined : Env → ℕ → List String → Option String
combined e n [] = none
combined e n (m ∷ errs) = some (
    "parallel: "
    ⧺ itoa (length (m ∷ errs))
    ⧺ "/"
    ⧺ itoa n
    ⧺ " tasks failed:\n  "
    ⧺ join "\n  " (e.in_order (m ∷ errs)))

notice : String → String → Time → Event
notice type message at = record {
  type = type;
  channel = status_channel;
  task_id = "";
  agent_id = "";
  agent_role = "";
  model = "";
  payload = ("message", message) ∷ [];
  occurred_at = at;
}

-- `Run`, with the limit on the goroutines as it is printed; the results do not depend on it.
unfoldable pub run : Env → String → List Task → Memory → Ran
unfolding combined notice
run e limit tasks mem =
    let results = results_from e mem 0 tasks in
    let errs = errors_from e mem 0 tasks in
    record {
      results = results;
      error = combined e (length tasks) errs;
      events =
          notice "parallel.done"
            (itoa (completed results)
              ⧺ "/"
              ⧺ itoa (length tasks)
              ⧺ " tasks completed, "
              ⧺ itoa (length errs)
              ⧺ " failed")
            e.ended_at
          ∷ notice "parallel.started"
              ("Running "
                ⧺ itoa (length tasks)
                ⧺ " tasks in parallel (max "
                ⧺ limit
                ⧺ " concurrent)")
              e.started_at
          ∷ [];
    }
