-- ===== src/Git.antt =====
-- internal/usecase/git/automation.go: the commands by which changes are committed and pushed.
pub mod Pushing
pub mod Artifacts
use agent_claw.Base.{
  ℕ, String, Bool, not, ◌&&◌, ◌||◌, List, [], ◌∷◌, Option, none, some, ◌⧺◌, eqb, if◌then◌else◌, ltb,
  itoa, contains, ◌==◌, ◌-◌,
}
use agent_claw.Base.Int64.{itoa64}
use agent_claw.Port.{Result, ok, err}
use agent_claw.TestFix.{CommandResult}

-- A command that was run: its directory and its arguments after `git`.
pub record Command : Type 0 where
  pub dir : String
  pub args : List String

-- The commands that were run, newest first.
abbrev pub Trace : Type 0
Trace = List Command

-- What the runner answers to the newest command of a trace.
abbrev pub Runner : Type 0
Runner = Trace → Result CommandResult

-- An entry of `steps`.
pub record Step : Type 0 where
  pub name : String
  pub args : List String

abbrev pub add_step : Step
add_step = record { name = "git add"; args = "add" ∷ "." ∷ [] }

abbrev pub commit_step : String → Step
commit_step message = record { name = "git commit"; args = "commit" ∷ "-m" ∷ message ∷ [] }

abbrev pub push_step : String → Step
push_step branch = record { name = "git push"; args = "push" ∷ "-u" ∷ "origin" ∷ branch ∷ [] }

-- The error that a step of the loop returns, if it returns one.
unfoldable pub step_error : Step → Result CommandResult → Option String
step_error step (err why) = some ("git " ⧺ step.name ⧺ ": " ⧺ why)
step_error step (ok r) =
    if not (eqb r.exit_code 0)
    then (if (step.name == "git commit") && contains r.stdout "nothing to commit"
        then none
        else some ("git " ⧺ step.name ⧺ " failed (exit " ⧺ itoa64 r.exit_code ⧺ "): " ⧺ r.stderr))
    else none

abbrev stop_or : Option String × Trace → Trace → Option String → Option String × Trace
stop_or rest trace none = rest
stop_or rest trace (some why) = (some why, trace)

-- The loop over the steps.
unfoldable pub run_steps : Runner → String → List Step → Trace → Option String × Trace
run_steps run dir [] trace = (none, trace)
run_steps run dir (step ∷ steps) trace =
    let trace' = record { dir = dir; args = step.args } ∷ trace in
    let rest = run_steps run dir steps trace' in stop_or rest trace' (step_error step (run trace'))

-- `CommitAndPush`.
unfoldable pub commit_and_push : Runner → String → String → String → Trace → Option String × Trace
commit_and_push run dir branch message =
    run_steps run dir (add_step ∷ commit_step message ∷ push_step branch ∷ [])

branch_error : String → Result CommandResult → Option String
branch_error name (err why) = some ("git create branch: " ⧺ why)
branch_error name (ok r) =
    if not (eqb r.exit_code 0)
    then some ("git checkout -b " ⧺ name ⧺ " failed: " ⧺ r.stderr)
    else none

-- `CreateBranch`.
unfoldable pub create_branch : Runner → String → String → Trace → Option String × Trace
unfolding branch_error
create_branch run dir name trace =
    let trace' = record { dir = dir; args = "checkout" ∷ "-b" ∷ name ∷ [] } ∷ trace in
    (branch_error name (run trace'), trace')
