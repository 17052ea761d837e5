-- ===== src/Orchestrator/Parallel/Report.antt =====
-- What `Run` of internal/usecase/orchestrator/parallel.go reports.
use agent_claw.Base.{ℕ, suc, ◌+◌, ◌≡◌, ◌↔◌, String, List, [], ◌∷◌, Option, none, some, Dict}
use agent_claw.Domain.Types.{Task, TaskResult, Event}
use agent_claw.Port.{ok, err}
use agent_claw.Phase.Runner.{Outcome}
use agent_claw.Orchestrator.Parallel.{Env, Memory, outcome_at}

-- The tasks whose run ends with a result, is suspended, or fails.
abbrev pub count_ok : Outcome → ℕ
count_ok (ok (some r)) = 1
count_ok _ = 0

abbrev pub count_parked : Outcome → ℕ
count_parked (ok none) = 1
count_parked _ = 0

abbrev pub count_err : Outcome → ℕ
count_err (err m) = 1
count_err _ = 0

module _ (e : Env) (mem : Memory) where
  -- The sum of a count over the tasks, from a place on.
  abbrev pub total : (Outcome → ℕ) → ℕ → List Task → ℕ
  total count i [] = 0
  total count i (task ∷ tasks) = count (outcome_at e mem i task) + total count (suc i) tasks

  -- The runs of the tasks, each with its own entry in the results.
  abbrev pub Entries : ℕ → List Task → List (Option TaskResult) → Type 0
  Entries i [] [] = Unit
  Entries i [] (r ∷ results) = ⊥
  Entries i (task ∷ tasks) [] = ⊥
  Entries i (task ∷ tasks) (r ∷ results) =
      ((x : TaskResult) → (r ≡ some x) ↔ (outcome_at e mem i task ≡ ok (some x)))
      × Entries (suc i) tasks results

-- What a listener is told.
abbrev pub told : Event → String × Dict String
told event = (event.type, event.payload)
