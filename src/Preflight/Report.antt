-- ===== src/Preflight/Report.antt =====
-- What the check of internal/usecase/preflight/checker.go reports.
use agent_claw.Base.{
  ◌≡◌, refl, sym, ap, ◌∙◌, ◌↔◌, ◌≢◌, ℕ, suc, String, true, List, [], ◌∷◌, Option, none, some, map,
  arith, lookup, eq_iff, length,
}
use agent_claw.Domain.Types.{Event}
use agent_claw.Domain.Project.{ProjectConfig}
use agent_claw.Port.{Result, ok, err}
use agent_claw.TestFix.{CommandResult}
use agent_claw.Preflight.{
  ToolRequirement, PreflightResult, Env, tools_for_project, tool_result, check_tool, check_tools,
  missing, missing_tool, notice, conclude, check_all, check, clone_repo, cloned, stack_tools,
}

-- The exit code of a command that ran.
abbrev exit_of : Result CommandResult → Option ℕ
exit_of (ok r) = some r.exit_code
exit_of (err why) = none

-- An answer of the runner that is no error and has exit code 0.
abbrev pub Succeeds : Result CommandResult → Type 0
Succeeds answer = exit_of answer ≡ some 0

-- Every required tool answers its check, from a place on.
abbrev pub Present : Env → String → ℕ → List ToolRequirement → Type 0
Present e work_dir i [] = Unit {0}
Present e work_dir i (t ∷ tools) =
    (t.required ≡ true → Succeeds (e.run i work_dir t.check_cmd t.check_args))
    × Present e work_dir (suc i) tools

abbrev pub tools_of : List PreflightResult → List ToolRequirement
tools_of = map (λ r. r.tool)

abbrev pub types_of : List Event → List String
types_of = map (λ v. v.type)

-- The type of the event that goes with an error, or with none.
abbrev pub type_for : Option String → String
type_for none = "phase.transition"
type_for (some why) = "task.failed"

tool_result-tool :
    (t : ToolRequirement) (answer : Result CommandResult) → (tool_result t answer).tool ≡ t
unfolding tool_result missing_tool
tool_result-tool t (err why) = refl
tool_result-tool t (ok r) = ground arith

installed_iff :
    (t : ToolRequirement) (answer : Result CommandResult)
    → ((tool_result t answer).installed ≡ true) ↔ Succeeds answer
unfolding tool_result missing_tool
installed_iff t (ok r) = ground arith
installed_iff t (err why) = ground arith

check_tools-tools :
    (e : Env) (work_dir : String) (i : ℕ) (tools : List ToolRequirement)
    → tools_of (check_tools e work_dir i tools) ≡ tools
unfolding check_tools check_tool
check_tools-tools e work_dir i [] = refl
check_tools-tools e work_dir i (t ∷ tools) =
    let answer = e.run i work_dir t.check_cmd t.check_args in
    simp (tool_result-tool t answer, check_tools-tools e work_dir (suc i) tools)

missing-∷ :
    (r : PreflightResult) (results : List PreflightResult)
    → (missing (r ∷ results) ≡ [])
      ↔ ((r.tool.required ≡ true → r.installed ≡ true) × (missing results ≡ []))
unfolding missing
missing-∷ r results = ground arith

required_iff :
    (t : ToolRequirement) (answer : Result CommandResult)
    → let r = tool_result t answer in
      (r.tool.required ≡ true → r.installed ≡ true) ↔ (t.required ≡ true → Succeeds answer)
required_iff t answer =
    let same = ap (λ x. x.required) (tool_result-tool t answer) in
    let (succeeds, installs) = installed_iff t answer in
    (λ h needed. succeeds (h (same ∙ needed)), λ h needed. installs (h (sym same ∙ needed)))

missing-check_tools :
    (e : Env) (work_dir : String) (i : ℕ) (tools : List ToolRequirement)
    → (missing (check_tools e work_dir i tools) ≡ []) ↔ Present e work_dir i tools
unfolding check_tools check_tool missing
missing-check_tools e work_dir i [] = (λ e'. tt, λ u. refl)
missing-check_tools e work_dir i (t ∷ tools) =
    let answer = e.run i work_dir t.check_cmd t.check_args in
    let (there, back) = missing-check_tools e work_dir (suc i) tools in
    let (first, last) = missing-∷ (tool_result t answer) (check_tools e work_dir (suc i) tools) in
    let (succeeds, installs) = required_iff t answer in
    (λ h. (succeeds (first h).0, there (first h).1), λ p. last (installs p.0, back p.1))

conclude-eq-none :
    (e : Env) (n : ℕ) (results : List PreflightResult) (lines : List String)
    → ((conclude e n results lines).error ≡ none) ↔ (lines ≡ [])
unfolding conclude
conclude-eq-none e n results [] = ground arith
conclude-eq-none e n results (line ∷ lines) = ground arith

conclude-types :
    (e : Env) (n : ℕ) (results : List PreflightResult) (lines : List String)
    → let c = conclude e n results lines in types_of c.events ≡ type_for c.error ∷ []
unfolding conclude notice
conclude-types e n results [] = refl
conclude-types e n results (line ∷ lines) = refl

conclude-results :
    (e : Env) (n : ℕ) (results : List PreflightResult) (lines : List String)
    → (conclude e n results lines).results ≡ results
unfolding conclude
conclude-results e n results [] = refl
conclude-results e n results (line ∷ lines) = refl

check_all-report :
    (e : Env) (work_dir : String) (t : ToolRequirement) (tools : List ToolRequirement)
    → let c = check_all e work_dir (t ∷ tools) in
      (tools_of c.results ≡ t ∷ tools)
      × ((c.error ≡ none) ↔ Present e work_dir 0 (t ∷ tools))
      × (types_of c.events ≡ type_for c.error ∷ [])
unfolding check_all
check_all-report e work_dir t tools =
    let all = t ∷ tools in
    let results = check_tools e work_dir 0 all in
    let (there, back) = missing-check_tools e work_dir 0 all in
    let (none_missing, no_error) = conclude-eq-none e (length all) results (missing results) in
    (
      ap tools_of (conclude-results e (length all) results (missing results))
          ∙ check_tools-tools e work_dir 0 all,
      (λ h. there (none_missing h), λ h. no_error (back h)),
      conclude-types e (length all) results (missing results),
    )

-- The check reports one result for each tool of the project, in their order. It has no error exactly
-- when every required tool answers its check with exit code 0, and it dispatches one event, which
-- tells of the failure when there is an error and of the success when there is none.
pub check_report :
    (e : Env) (cfg : ProjectConfig)
    → let c = check e cfg in
      (tools_of c.results ≡ tools_for_project cfg)
      × ((c.error ≡ none) ↔ Present e cfg.work_dir 0 (tools_for_project cfg))
      × (types_of c.events ≡ type_for c.error ∷ [])
unfolding check tools_for_project stack_tools check_all lookup
check_report e cfg = check_all-report e cfg.work_dir _ _

cloned-eq-none : (answer : Result CommandResult) → (cloned answer ≡ none) ↔ Succeeds answer
unfolding cloned
cloned-eq-none (ok r) = ground arith
cloned-eq-none (err why) = ground arith

-- A clone has no error exactly when the repository and the directory are given and `git clone` of the
-- one into the other, run once, has exit code 0.
pub clone_repo-eq-none :
    (run : String → String → List String → Result CommandResult) (cfg : ProjectConfig)
    → (clone_repo run cfg ≡ none) ↔ (
        (cfg.repo_url ≢ "")
        × (cfg.work_dir ≢ "")
        × Succeeds (run "" "git" ("clone" ∷ cfg.repo_url ∷ cfg.work_dir ∷ [])))
unfolding clone_repo
clone_repo-eq-none run cfg =
    let answer = run "" "git" ("clone" ∷ cfg.repo_url ∷ cfg.work_dir ∷ []) in
    ground (arith, eq_iff cfg.repo_url "", eq_iff cfg.work_dir "", cloned-eq-none answer)
