-- ===== src/Guard/Patterns/Paths.antt =====
-- internal/guard/patterns/paths.go.
use agent_claw.Base.{List, [], ◌∷◌, String, Dict}
use agent_claw.Guard.Types.{Pattern, pattern_of}

-- `PathPatterns`.
unfoldable pub path_patterns : List Pattern
path_patterns =
    pattern_of "PATH-001" "environment file" "(?i)(^|/)\\.env(\\.[a-z]+)?$"
    ∷ pattern_of "PATH-002" "private key file" "(?i)\\.(pem|key|p12|jks|pfx|keystore)$"
    ∷ pattern_of "PATH-003" "certificate file" "(?i)\\.(crt|cer|ca-bundle)$"
    ∷ pattern_of "PATH-004" "credentials file"
        "(?i)(^|/)(credentials|secrets?)(\\.json|\\.yaml|\\.yml|\\.toml|\\.xml)?$"
    ∷ pattern_of "PATH-010" "SSH directory" "(^|/)\\.ssh/"
    ∷ pattern_of "PATH-011" "GPG directory" "(^|/)\\.gnupg/"
    ∷ pattern_of "PATH-012" "authorized_keys" "(?i)(^|/)authorized_keys$"
    ∷ pattern_of "PATH-013" "known_hosts manipulation" "(?i)(^|/)known_hosts$"
    ∷ pattern_of "PATH-020" "git config file" "(^|/)\\.git/(config|credentials|hooks/)"
    ∷ pattern_of "PATH-021" "gitconfig global" "(?i)(^|/)\\.gitconfig$"
    ∷ pattern_of "PATH-030" "AWS config" "(^|/)\\.aws/"
    ∷ pattern_of "PATH-031" "Kubernetes config" "(^|/)\\.kube/"
    ∷ pattern_of "PATH-032" "GCloud config" "(^|/)\\.config/gcloud/"
    ∷ pattern_of "PATH-033" "Docker config" "(^|/)\\.docker/config\\.json$"
    ∷ pattern_of "PATH-040" "system passwd/shadow" "^/etc/(passwd|shadow|sudoers)"
    ∷ pattern_of "PATH-041" "system hosts file" "^/etc/hosts$"
    ∷ pattern_of "PATH-042" "system crontab" "^/etc/cron"
    ∷ pattern_of "PATH-043" "system init scripts" "^/etc/init\\.d/"
    ∷ pattern_of "PATH-050" "shell script" "(?i)\\.(sh|bash|zsh|csh|fish)$"
    ∷ pattern_of "PATH-051" "Windows executable" "(?i)\\.(exe|bat|cmd|ps1|vbs|com|scr|msi)$"
    ∷ pattern_of "PATH-052" "binary/library" "(?i)\\.(so|dylib|dll)$"
    ∷ pattern_of "PATH-060" "go.mod modification" "(^|/)go\\.(mod|sum)$"
    ∷ pattern_of "PATH-061" "package.json modification" "(^|/)package(-lock)?\\.json$"
    ∷ pattern_of "PATH-062" "CI/CD configuration" "(^|/)\\.(github|gitlab|circleci|travis)/"
    ∷ pattern_of "PATH-063" "Makefile modification" "(?i)(^|/)Makefile$"
    ∷ pattern_of "PATH-064" "Dockerfile modification"
        "(?i)(^|/)(Dockerfile|docker-compose\\.ya?ml)$"
    ∷ []

-- `PathRoleOverrides`: for a role the identifiers from which it is exempt.
abbrev pub path_role_overrides : Dict (List String)
path_role_overrides =
    ("coding", "PATH-060" ∷ []) ∷ ("deploy", "PATH-063" ∷ "PATH-064" ∷ []) ∷ ("docs", []) ∷ []
