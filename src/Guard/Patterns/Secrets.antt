-- ===== src/Guard/Patterns/Secrets.antt =====
-- internal/guard/patterns/secrets.go.
use agent_claw.Base.{List, [], ◌∷◌}
use agent_claw.Guard.Types.{Pattern, pattern_of}

-- `SecretPatterns`.
unfoldable pub secret_patterns : List Pattern
secret_patterns =
    pattern_of "SEC-001" "AWS access key ID" "(?i)(AKIA|ASIA)[0-9A-Z]{16}"
    ∷ pattern_of "SEC-002" "AWS secret access key"
        "(?i)aws_secret_access_key\\s*=\\s*[A-Za-z0-9/+=]{40}"
    ∷ pattern_of "SEC-010" "GitHub personal access token" "ghp_[0-9a-zA-Z]{36}"
    ∷ pattern_of "SEC-011" "GitHub OAuth token" "gho_[0-9a-zA-Z]{36}"
    ∷ pattern_of "SEC-012" "GitHub app token" "(ghu|ghs|ghr)_[0-9a-zA-Z]{36}"
    ∷ pattern_of "SEC-020" "RSA private key" "-----BEGIN\\s+(RSA\\s+)?PRIVATE\\s+KEY-----"
    ∷ pattern_of "SEC-021" "EC private key" "-----BEGIN\\s+EC\\s+PRIVATE\\s+KEY-----"
    ∷ pattern_of "SEC-022" "OpenSSH private key" "-----BEGIN\\s+OPENSSH\\s+PRIVATE\\s+KEY-----"
    ∷ pattern_of "SEC-023" "PGP private key" "-----BEGIN\\s+PGP\\s+PRIVATE\\s+KEY\\s+BLOCK-----"
    ∷ pattern_of "SEC-030" "OpenAI API key" "sk-[0-9a-zA-Z]{48}"
    ∷ pattern_of "SEC-031" "Anthropic API key" "sk-ant-[0-9a-zA-Z-]{80,}"
    ∷ pattern_of "SEC-032" "Slack bot token" "xoxb-[0-9]{10,}-[0-9a-zA-Z]+"
    ∷ pattern_of "SEC-033" "Slack webhook URL"
        "https://hooks\\.slack\\.com/services/T[0-9A-Z]+/B[0-9A-Z]+/[0-9a-zA-Z]+"
    ∷ pattern_of "SEC-034" "Stripe secret key" "sk_(live|test)_[0-9a-zA-Z]{24,}"
    ∷ pattern_of "SEC-035" "Telegram bot token" "[0-9]{8,10}:[0-9a-zA-Z_-]{35}"
    ∷ pattern_of "SEC-036" "Google API key" "AIza[0-9A-Za-z\\-_]{35}"
    ∷ pattern_of "SEC-037" "SendGrid API key" "SG\\.[0-9A-Za-z\\-_]{22}\\.[0-9A-Za-z\\-_]{43}"
    ∷ pattern_of "SEC-040" "MongoDB connection URI with password"
        "(?i)mongodb(\\+srv)?://[^:]+:[^@]+@"
    ∷ pattern_of "SEC-041" "PostgreSQL URI with password" "(?i)postgres(ql)?://[^:]+:[^@]+@"
    ∷ pattern_of "SEC-042" "MySQL URI with password" "(?i)mysql://[^:]+:[^@]+@"
    ∷ pattern_of "SEC-043" "Redis URI with password" "(?i)redis://[^:]+:[^@]+@"
    ∷ pattern_of "SEC-050" "generic password assignment"
        "(?i)(password|passwd|pwd|secret|token|api_key|apikey|api-key)\\s*[:=]\\s*[\"'][^\"']{8,}[\"']"
    ∷ pattern_of "SEC-051" "JWT token"
        "eyJ[A-Za-z0-9_-]{10,}\\.eyJ[A-Za-z0-9_-]{10,}\\.[A-Za-z0-9_-]+"
    ∷ pattern_of "SEC-052" "Bearer token in header"
        "(?i)authorization\\s*:\\s*bearer\\s+[a-zA-Z0-9_.~+/=-]{20,}"
    ∷ []
