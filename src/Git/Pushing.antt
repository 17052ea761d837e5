-- ===== src/Git/Pushing.antt =====
-- How `CommitAndPush` of internal/usecase/git/automation.go ends.
use agent_claw.Base.{
  ◌≡◌, refl, sym, ◌∙◌, ◌↔◌, String, true, false, [], ◌∷◌, Option, none, some, ◌⊎◌, contains, arith,
  ◌==◌,
}
use mathlib.Core.Option.{none-ne-some}
use agent_claw.Port.{Result, ok, err}
use agent_claw.TestFix.{CommandResult}
use agent_claw.Preflight.Report.{Succeeds}
use agent_claw.Git.{
  Trace, Runner, Step, add_step, commit_step, push_step, step_error, run_steps, commit_and_push,
  stop_or,
}

-- A command that ran and printed that there was nothing to commit.
abbrev pub Idle : Result CommandResult → Type 0
Idle (ok r) = contains r.stdout "nothing to commit" ≡ true
Idle (err why) = false ≡ true

-- The traces after each of the three commands.
abbrev pub added : String → Trace → Trace
added dir trace = record { dir = dir; args = "add" ∷ "." ∷ [] } ∷ trace

abbrev pub committed : String → String → Trace → Trace
committed dir message trace =
    record { dir = dir; args = "commit" ∷ "-m" ∷ message ∷ [] } ∷ added dir trace

abbrev pub pushed : String → String → String → Trace → Trace
pushed dir branch message trace =
    record { dir = dir; args = "push" ∷ "-u" ∷ "origin" ∷ branch ∷ [] }
    ∷ committed dir message trace

-- The endings: a command failed and none was run after it, or all three were run. A commit without
-- changes counts as one that succeeded.
pub data IsPushed (run : Runner) (dir branch message : String) (trace : Trace)
    : Option String → Trace → Type 0 where
  add_fails :
      (why : String)
      → (Succeeds (run (added dir trace)) → ⊥)
      → IsPushed run dir branch message trace (some why) (added dir trace)
  commit_fails :
      (why : String)
      → Succeeds (run (added dir trace))
      → (Succeeds (run (committed dir message trace)) → ⊥)
      → (Idle (run (committed dir message trace)) → ⊥)
      → IsPushed run dir branch message trace (some why) (committed dir message trace)
  push_fails :
      (why : String)
      → Succeeds (run (added dir trace))
      → (Succeeds (run (committed dir message trace)) ⊎ Idle (run (committed dir message trace)))
      → (Succeeds (run (pushed dir branch message trace)) → ⊥)
      → IsPushed run dir branch message trace (some why) (pushed dir branch message trace)
  pushes :
      Succeeds (run (added dir trace))
      → (Succeeds (run (committed dir message trace)) ⊎ Idle (run (committed dir message trace)))
      → Succeeds (run (pushed dir branch message trace))
      → IsPushed run dir branch message trace none (pushed dir branch message trace)

-- A step other than the commit goes on exactly when its command succeeds.
plain_step :
    (step : Step) (answer : Result CommandResult)
    → (step.name == "git commit") ≡ false
    → (step_error step answer ≡ none) ↔ Succeeds answer
unfolding step_error
plain_step step (ok r) other = ground arith
plain_step step (err why) other = ground arith

commit_goes :
    (message : String) (answer : Result CommandResult)
    → step_error (commit_step message) answer ≡ none
    → Succeeds answer ⊎ Idle answer
unfolding step_error
commit_goes message (ok r) = ground arith
commit_goes message (err why) = ground arith

commit_stops :
    (message why : String) (answer : Result CommandResult)
    → step_error (commit_step message) answer ≡ some why
    → (Succeeds answer → ⊥) × (Idle answer → ⊥)
unfolding step_error
commit_stops message why (ok r) = ground arith
commit_stops message why (err w) = ground arith

plain_stops :
    (step : Step) (why : String) (answer : Result CommandResult)
    → (step.name == "git commit") ≡ false
    → step_error step answer ≡ some why
    → Succeeds answer
    → ⊥
plain_stops step why answer other e works =
    none-ne-some why (sym ((plain_step step answer other).1 works) ∙ e)

module _ (run : Runner) (dir branch message : String) (trace : Trace) where
  abbrev EndsAt : Option String × Trace → Type 0
  EndsAt ended = IsPushed run dir branch message trace ended.0 ended.1

  abbrev push_end : Option String → Option String × Trace
  push_end = stop_or (none, pushed dir branch message trace) (pushed dir branch message trace)

  push_end-EndsAt :
      (o : Option String)
      → step_error (push_step branch) (run (pushed dir branch message trace)) ≡ o
      → Succeeds (run (added dir trace))
      → (Succeeds (run (committed dir message trace)) ⊎ Idle (run (committed dir message trace)))
      → EndsAt (push_end o)
  push_end-EndsAt none e add_well commit_well =
      pushes add_well commit_well ((plain_step (push_step branch) _ refl).0 e)
  push_end-EndsAt (some why) e add_well commit_well =
      push_fails why add_well commit_well (plain_stops (push_step branch) why _ refl e)

  commit_end : Option String → Option String × Trace
  commit_end =
      stop_or (push_end (step_error (push_step branch) (run (pushed dir branch message trace))))
        (committed dir message trace)

  commit_end-EndsAt :
      (o : Option String)
      → step_error (commit_step message) (run (committed dir message trace)) ≡ o
      → Succeeds (run (added dir trace))
      → EndsAt (commit_end o)
  unfolding commit_end
  commit_end-EndsAt none e add_well = push_end-EndsAt _ refl add_well (commit_goes message _ e)
  commit_end-EndsAt (some why) e add_well =
      let stops = commit_stops message why _ e in commit_fails why add_well stops.0 stops.1

  add_end-EndsAt :
      (o : Option String)
      → step_error add_step (run (added dir trace)) ≡ o
      → EndsAt (
          stop_or
            (commit_end (step_error (commit_step message) (run (committed dir message trace))))
            (added dir trace)
            o)
  add_end-EndsAt none e = commit_end-EndsAt _ refl ((plain_step add_step _ refl).0 e)
  add_end-EndsAt (some why) e = add_fails why (plain_stops add_step why _ refl e)

-- `CommitAndPush` runs `git add`, `git commit` and `git push` in this order and stops at the first
-- that fails, as `IsPushed` says: there is no error exactly when the push was run and succeeded.
pub commit_and_push-IsPushed :
    (run : Runner) (dir branch message : String) (trace : Trace)
    → let ended = commit_and_push run dir branch message trace in
      IsPushed run dir branch message trace ended.0 ended.1
unfolding commit_and_push run_steps commit_end
commit_and_push-IsPushed run dir branch message trace =
    add_end-EndsAt run dir branch message trace _ refl
