-- ===== src/Tests/Preflights.antt =====
-- Runs of internal/usecase/preflight/checker.go.
use agent_claw.Base.{
  true, false, lookup, ◌≡◌, refl, ◌↔◌, ℕ, String, List, [], ◌∷◌, none, ◌==◌, if◌then◌else◌, map,
}
use agent_claw.Domain.Project.{ProjectConfig}
use agent_claw.Port.{Result, ok, err}
use agent_claw.TestFix.{CommandResult}
use agent_claw.Preflight.{
  Env, check, check_all, check_tools, check_tool, tool_result, missing, conclude, tools_for_project,
}
use agent_claw.Preflight.Report.{Present, tools_of, types_of, type_for, check_report}

abbrev pub printed : ℕ → String → CommandResult
printed code out = record { stdout = out; stderr = ""; exit_code = code }

-- Docker is not installed, npm is broken.
abbrev laptop : Env
laptop = record {
  run = λ i work_dir command args.
      if command == "docker"
      then err "not found"
      else if command == "npm"
      then ok (printed 1 "")
      else ok (printed 0 command);
  now = 0;
}

abbrev pub shop : ProjectConfig
shop = record {
  repo_url = "https://example.org/shop.git";
  branch = "main";
  work_dir = "/work/shop";
  repo_structure = "mono";
  frontend_framework = "node";
  backend_language = "go";
  database = "postgresql";
  auth_method = "google_oauth";
  target_platforms = "web" ∷ [];
  integrations = [];
}

check_report_example :
    (tools_of (check laptop shop).results ≡ tools_for_project shop)
    × (((check laptop shop).error ≡ none) ↔ Present laptop "/work/shop" 0 (tools_for_project shop))
    × (types_of (check laptop shop).events ≡ type_for (check laptop shop).error ∷ [])
check_report_example = check_report laptop shop

tools_found :
    map (λ r. r.installed) (check laptop shop).results ≡ true ∷ false ∷ true ∷ false ∷ true ∷ []
unfolding check check_all tools_for_project lookup conclude missing check_tools check_tool
    tool_result
tools_found = refl

abbrev git : String → String → List String → Result CommandResult
git work_dir command args = ok (printed 0 "")
