-- ===== src/Tests/Pushes.antt =====
-- Runs of internal/usecase/git/automation.go.
use agent_claw.Base.{◌≡◌, refl, [], none, contains, some, if◌then◌else◌, length, eqb}
use agent_claw.Port.{ok, err}
use agent_claw.Git.{Runner, commit_and_push, run_steps, step_error}
use agent_claw.Git.Pushing.{IsPushed, commit_and_push-IsPushed}

-- The tree is clean: the second command has nothing to commit.
abbrev clean : Runner
clean trace =
    if eqb (length trace) 2
    then ok (record { stdout = "nothing to commit"; stderr = ""; exit_code = 1 })
    else ok (record { stdout = ""; stderr = ""; exit_code = 0 })

commit_and_push-IsPushed_example :
    IsPushed clean "/src" "main" "fix" []
      (commit_and_push clean "/src" "main" "fix" []).0
      (commit_and_push clean "/src" "main" "fix" []).1
commit_and_push-IsPushed_example = commit_and_push-IsPushed clean "/src" "main" "fix" []

clean_pushes : (commit_and_push clean "/src" "main" "fix" []).0 ≡ none
unfolding commit_and_push run_steps step_error contains
clean_pushes = refl

-- The answers of a directory that is no repository.
abbrev bare : Runner
bare trace = err "exit status 128"

-- The name of a step has `git` in it already.
git_twice : (commit_and_push bare "/src" "main" "fix" []).0 ≡ some "git git add: exit status 128"
unfolding commit_and_push run_steps step_error
git_twice = refl
