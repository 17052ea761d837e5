-- ===== src/Guard/Patterns/Workflow.antt =====
-- internal/guard/patterns/workflow.go.
use agent_claw.Base.{ℕ, String, List, [], ◌∷◌, Dict}

-- `RoleBinaryAllowlist`.
abbrev pub role_binary_allowlist : Dict (List String)
role_binary_allowlist =
    ("idea", [])
    ∷ ("architect", [])
    ∷ ("breakdown", [])
    ∷ ("coding", "git" ∷ "go" ∷ "make" ∷ [])
    ∷ ("test", "git" ∷ "go" ∷ "make" ∷ [])
    ∷ ("review", "git" ∷ "go" ∷ [])
    ∷ ("docs", [])
    ∷ ("deploy", "git" ∷ "go" ∷ "make" ∷ "docker" ∷ "kubectl" ∷ [])
    ∷ ("notify", [])
    ∷ []

-- `RoleWritePathPrefixes`.
abbrev pub role_write_path_prefixes : Dict (List String)
role_write_path_prefixes =
    ("idea", "memory/" ∷ [])
    ∷ ("architect", "memory/" ∷ "docs/architecture/" ∷ [])
    ∷ ("breakdown", [])
    ∷ ("coding", "internal/" ∷ "cmd/" ∷ "vendor/" ∷ "pkg/" ∷ [])
    ∷ ("test", "internal/" ∷ "cmd/" ∷ "testdata/" ∷ [])
    ∷ ("review", [])
    ∷ ("docs", "docs/" ∷ "README" ∷ [])
    ∷ ("deploy", "Dockerfile" ∷ "docker-compose" ∷ "Makefile" ∷ "deploy/" ∷ [])
    ∷ ("notify", [])
    ∷ []

-- `MaxInputLength`.
abbrev pub max_input_length : Dict ℕ
max_input_length =
    ("task_title", 500)
    ∷ ("task_description", 10_000)
    ∷ ("memory_section", 5_000)
    ∷ ("human_answer", 2_000)
    ∷ ("trello_card", 10_000)
    ∷ ("api_input", 10_000)
    ∷ []
