-- ===== src/Domain/Project.antt =====
-- internal/domain/project.go: what the human says about a project.
use agent_claw.Base.{String, Bool, List}

-- `ProjectConfig`.
pub record ProjectConfig : Type 0 where
  pub repo_url : String
  pub branch : String
  pub work_dir : String
  pub repo_structure : String
  pub frontend_framework : String
  pub backend_language : String
  pub database : String
  pub auth_method : String
  pub target_platforms : List String
  pub integrations : List String

-- `IdeaClarifyResult`.
pub record IdeaClarifyResult : Type 0 where
  pub ready : Bool
  pub questions : List String
  pub concept : String
  pub config : ProjectConfig

-- `MidClarifyResult`.
pub record MidClarifyResult : Type 0 where
  pub needs_clarification : Bool
  pub questions : List String
  pub partial_output : String
  pub context : String
