-- ===== src/Preflight.antt =====
-- internal/domain/preflight.go and internal/usecase/preflight/checker.go: the tools that a project needs,
-- and the check that they are there. The checks run at once and each writes its own place of the
-- results, so a check is a function of its place, whatever the order in which they end.
pub mod Report
use agent_claw.Base.{
  ℕ, zero, suc, ◌-◌, String, Bool, true, false, not, ◌&&◌, List, [], ◌∷◌, ◌++◌, Option, none, some,
  ◌⧺◌, slice, find?, ltb, eqb, if◌then◌else◌, itoa, join, Dict, lookup, length, ◌==◌,
}
use agent_claw.Domain.Project.{ProjectConfig}
use agent_claw.Domain.Types.{Event, Channel, status_channel, human_channel, Time}
use agent_claw.Base.Int64.{itoa64}
use agent_claw.Port.{Result, ok, err}
use agent_claw.TestFix.{CommandResult}

-- `ToolRequirement`.
pub record ToolRequirement : Type 0 where
  pub name : String
  pub binary : String
  pub check_cmd : String
  pub check_args : List String
  pub install_hint : String
  pub required : Bool

-- `PreflightResult`.
pub record PreflightResult : Type 0 where
  pub tool : ToolRequirement
  pub installed : Bool
  pub version : String
  pub error : String

abbrev tool_of : String → String → String → String → Bool → ToolRequirement
tool_of name command arg hint required = record {
  name = name;
  binary = command;
  check_cmd = command;
  check_args = arg ∷ [];
  install_hint = hint;
  required = required;
}

abbrev flutter_tools : List ToolRequirement
flutter_tools =
    tool_of "Flutter SDK" "flutter" "--version" "https://docs.flutter.dev/get-started/install" true
    ∷ tool_of "Dart SDK" "dart" "--version" "Included with Flutter SDK" true
    ∷ []

abbrev node_tools : List ToolRequirement
node_tools =
    tool_of "Node.js" "node" "--version" "https://nodejs.org/" true
    ∷ tool_of "npm" "npm" "--version" "Included with Node.js" true
    ∷ []

abbrev pub common_tools : List ToolRequirement
common_tools =
    tool_of "Git" "git" "--version" "https://git-scm.com/downloads" true
    ∷ tool_of "Docker" "docker" "--version" "https://docs.docker.com/get-docker/" false
    ∷ []

-- `ToolsByStack`.
abbrev pub tools_by_stack : Dict (List ToolRequirement)
tools_by_stack =
    ("flutter", flutter_tools)
    ∷ ("go", tool_of "Go" "go" "version" "https://go.dev/dl/" true ∷ [])
    ∷ ("node", node_tools)
    ∷ ("python", tool_of "Python" "python3" "--version" "https://python.org/downloads/" true ∷ [])
    ∷ ("common", common_tools)
    ∷ []

-- The tools of a stack, none if the table does not have it.
unfoldable stack_tools : String → List ToolRequirement
stack_tools key = elim (lookup key tools_by_stack) [ none ↦ [] | some tools ↦ tools ]

-- `ToolsForProject`.
unfoldable pub tools_for_project : ProjectConfig → List ToolRequirement
unfolding stack_tools
tools_for_project cfg =
    (stack_tools "common" ++ stack_tools cfg.frontend_framework) ++ stack_tools cfg.backend_language

-- The collaborators: what the runner answers to the check at a place, with its directory, command
-- and arguments, and the clock when the checks have ended.
pub record Env : Type 0 where
  pub run : ℕ → String → String → List String → Result CommandResult
  pub now : Time

abbrev first_line : String → String
first_line s = elim (find? s "\n") [ none ↦ s | some i ↦ slice s 0 i ]

unfoldable missing_tool : ToolRequirement → String → PreflightResult
missing_tool tool why = record { tool = tool; installed = false; version = ""; error = why }

-- What `checkTool` makes of the runner's answer.
unfoldable pub tool_result : ToolRequirement → Result CommandResult → PreflightResult
unfolding missing_tool
tool_result tool (err why) = missing_tool tool why
tool_result tool (ok r) =
    if not (eqb r.exit_code 0)
    then missing_tool tool ("exit code " ⧺ itoa64 r.exit_code ⧺ ": " ⧺ r.stderr)
    else record { tool = tool; installed = true; version = first_line r.stdout; error = "" }

-- `checkTool`, at a place.
unfoldable pub check_tool : Env → String → ℕ → ToolRequirement → PreflightResult
check_tool e work_dir i tool = tool_result tool (e.run i work_dir tool.check_cmd tool.check_args)

-- The loop of the checks, from a place on.
unfoldable pub check_tools : Env → String → ℕ → List ToolRequirement → List PreflightResult
check_tools e work_dir i [] = []
check_tools e work_dir i (tool ∷ tools) =
    check_tool e work_dir i tool ∷ check_tools e work_dir (suc i) tools

-- The lines of the required tools that are missing.
unfoldable pub missing : List PreflightResult → List String
missing [] = []
missing (r ∷ results) =
    let others = missing results in
    let line = "- " ⧺ r.tool.name ⧺ ": " ⧺ r.error ⧺ " (install: " ⧺ r.tool.install_hint ⧺ ")" in
    if not r.installed && r.tool.required then line ∷ others else others

unfoldable pub notice : Env → String → Channel → String → Event
notice e type channel message = record {
  type = type;
  channel = channel;
  task_id = "";
  agent_id = "";
  agent_role = "";
  model = "";
  payload = ("message", message) ∷ [];
  occurred_at = e.now;
}

-- The two results of `Check`, and the events it dispatched.
pub record Checked : Type 0 where
  pub results : List PreflightResult
  pub error : Option String
  pub events : List Event

-- `Check` from the list of the missing tools on, with the number of tools.
unfoldable pub conclude : Env → ℕ → List PreflightResult → List String → Checked
conclude e tools results [] = record {
  results = results;
  error = none;
  events =
      notice e "phase.transition" status_channel ("Preflight OK: " ⧺ itoa tools ⧺ " tools verified")
      ∷ [];
}
conclude e tools results (first ∷ others) = record {
  results = results;
  error = some (
      "preflight: "
      ⧺ itoa (length (first ∷ others))
      ⧺ " required tools missing:\n"
      ⧺ join "\n" (first ∷ others));
  events =
      notice e "task.failed" human_channel
        ("Preflight check failed. Missing required tools:\n" ⧺ join "\n" (first ∷ others))
      ∷ [];
}

-- `Check` on the tools of the project.
unfoldable pub check_all : Env → String → List ToolRequirement → Checked
check_all e work_dir [] = record { results = []; error = none; events = [] }
check_all e work_dir (tool ∷ tools) =
    let results = check_tools e work_dir 0 (tool ∷ tools) in
    conclude e (length (tool ∷ tools)) results (missing results)

-- `Check`.
unfoldable pub check : Env → ProjectConfig → Checked
check e cfg = check_all e cfg.work_dir (tools_for_project cfg)

-- What `CloneRepo` makes of the answer to `git clone`.
unfoldable cloned : Result CommandResult → Option String
cloned (err why) = some ("preflight: git clone: " ⧺ why)
cloned (ok r) =
    if not (eqb r.exit_code 0)
    then some ("preflight: git clone failed (exit " ⧺ itoa64 r.exit_code ⧺ "): " ⧺ r.stderr)
    else none

-- `CloneRepo`, with the runner's answer to a command.
unfoldable pub clone_repo :
    (String → String → List String → Result CommandResult) → ProjectConfig → Option String
unfolding cloned
clone_repo run cfg =
    if cfg.repo_url == ""
    then some "preflight: repo_url is empty"
    else if cfg.work_dir == ""
    then some "preflight: work_dir is empty"
    else cloned (run "" "git" ("clone" ∷ cfg.repo_url ∷ cfg.work_dir ∷ []))
