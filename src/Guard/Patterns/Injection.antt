-- ===== src/Guard/Patterns/Injection.antt =====
-- internal/guard/patterns/injection.go.
use agent_claw.Base.{List, [], ◌∷◌}
use agent_claw.Guard.Types.{Pattern, pattern_of}

-- `InjectionPatterns`.
unfoldable pub injection_patterns : List Pattern
injection_patterns =
    pattern_of "INJ-001" "ignore previous instructions"
      "(?i)ignore\\s+(all\\s+)?previous\\s+(instructions?|prompts?|rules?)"
    ∷ pattern_of "INJ-002" "disregard prior context"
        "(?i)disregard\\s+(all|any|the)\\s+(prior|above|previous|preceding)"
    ∷ pattern_of "INJ-003" "override system instructions"
        "(?i)override\\s+(the\\s+)?(system|original|initial)\\s+(instructions?|prompts?|rules?)"
    ∷ pattern_of "INJ-004" "forget instructions"
        "(?i)forget\\s+(all\\s+)?(your\\s+)?(instructions?|rules?|constraints?|guidelines?)"
    ∷ pattern_of "INJ-005" "new system prompt" "(?i)new\\s+system\\s+(prompt|instruction|message)"
    ∷ pattern_of "INJ-006" "reset context"
        "(?i)(reset|clear)\\s+(your\\s+)?(context|memory|instructions?)"
    ∷ pattern_of "INJ-010" "role reassignment" "(?i)you\\s+are\\s+now\\s+(a|an|in)\\s+"
    ∷ pattern_of "INJ-011" "mode switch attempt"
        "(?i)(switch|enter|activate|enable)\\s+(to\\s+)?(developer|debug|admin|god|unrestricted|jailbreak)\\s+mode"
    ∷ pattern_of "INJ-012" "pretend/act as different entity"
        "(?i)(pretend|act|behave)\\s+(you\\s+are|as\\s+(if|though)|like)\\s+(you\\s+)?(have\\s+)?no\\s+(restrictions?|limitations?|rules?)"
    ∷ pattern_of "INJ-013" "DAN jailbreak"
        "(?i)\\bDAN\\b.*(jailbreak|do\\s+anything|freed|unfiltered)"
    ∷ pattern_of "INJ-014" "character roleplay escape"
        "(?i)(from\\s+now\\s+on|starting\\s+now)\\s+(you|act|behave|respond)\\s"
    ∷ pattern_of "INJ-015" "override persona"
        "(?i)(stop|cease)\\s+being\\s+(an?\\s+)?(AI|assistant|agent|model)"
    ∷ pattern_of "INJ-020" "system tag injection" "(?i)</?system>"
    ∷ pattern_of "INJ-021" "instruction tag injection" "(?i)</?instructions?>"
    ∷ pattern_of "INJ-022" "SYSTEM: prefix injection" "(?i)^SYSTEM\\s*:\\s"
    ∷ pattern_of "INJ-023" "assistant role injection" "(?i)^(assistant|model|claude)\\s*:\\s"
    ∷ pattern_of "INJ-024" "user/human role injection" "(?i)^(user|human)\\s*:\\s"
    ∷ pattern_of "INJ-025" "XML tag injection for system prompt"
        "(?i)<(system[-_]prompt|sys[-_]msg|system[-_]message|hidden[-_]instruction)>"
    ∷ pattern_of "INJ-026" "markdown heading injection"
        "(?i)^#{1,3}\\s*(system|instructions?|rules?|hidden)\\s*$"
    ∷ pattern_of "INJ-030" "base64 encoded payload" "(?i)base64\\s*:\\s*[A-Za-z0-9+/=]{40,}"
    ∷ pattern_of "INJ-031" "hex encoded payload" "(?i)(hex|0x)\\s*:\\s*[0-9a-fA-F]{40,}"
    ∷ pattern_of "INJ-032" "unicode escape sequence" "(?i)(\\\\u[0-9a-f]{4}){4,}"
    ∷ pattern_of "INJ-033" "CRLF injection" "%0[aAdD]"
    ∷ pattern_of "INJ-034" "null byte injection" "%00|\\\\x00|\\\\0"
    ∷ pattern_of "INJ-040" "fullwidth SYSTEM homoglyph" "[\\x{FF21}-\\x{FF3A}]{4,}"
    ∷ pattern_of "INJ-041" "Cyrillic homoglyph for Latin"
        "[\\x{0400}-\\x{04FF}].*[\\x{0041}-\\x{005A}]|[\\x{0041}-\\x{005A}].*[\\x{0400}-\\x{04FF}]"
    ∷ pattern_of "INJ-042" "invisible/zero-width characters"
        "[\\x{200B}\\x{200C}\\x{200D}\\x{FEFF}\\x{00AD}]"
    ∷ pattern_of "INJ-043" "right-to-left override" "[\\x{202A}-\\x{202E}\\x{2066}-\\x{2069}]"
    ∷ pattern_of "INJ-050" "HTML comment with system keyword"
        "(?i)<!--.*\\b(system|ignore|override|instruction)\\b.*-->"
    ∷ pattern_of "INJ-051" "script tag injection" "(?i)<script[\\s>]"
    ∷ pattern_of "INJ-052" "event handler injection" "(?i)\\bon\\w+\\s*=\\s*[\"']"
    ∷ pattern_of "INJ-060" "template variable injection"
        "\\{\\{.*\\b(system|exec|eval|import)\\b.*\\}\\}"
    ∷ pattern_of "INJ-061" "Go template injection" "\\{\\{.*\\b(call|printf|html|js)\\b.*\\}\\}"
    ∷ pattern_of "INJ-062" "string format injection"
        "%[0-9]*\\$?[snxXdpv]{1}.*%[0-9]*\\$?[snxXdpv]{1}"
    ∷ pattern_of "INJ-070" "prompt extraction attempt"
        "(?i)(show|reveal|print|output|display|repeat)\\s+(me\\s+)?(your|the)\\s+(system\\s+)?(prompt|instructions?|rules?|constraints?)"
    ∷ pattern_of "INJ-071" "prompt reflection"
        "(?i)(what|tell\\s+me)\\s+(are|is)\\s+(your|the)\\s+(system\\s+)?(prompt|instructions?|rules?)"
    ∷ pattern_of "INJ-072" "context dump request"
        "(?i)(dump|export|copy)\\s+(your\\s+)?(full\\s+)?(context|conversation|prompt|instructions?)"
    ∷ pattern_of "INJ-080" "conditional behavior change"
        "(?i)if\\s+(you|the\\s+user|I)\\s+(say|write|type|mention)\\s+[\"']"
    ∷ pattern_of "INJ-081" "sleeper/trigger injection"
        "(?i)(when|after|once)\\s+(you\\s+)?(see|encounter|find|receive)\\s+[\"']?\\w+[\"']?\\s*,?\\s*(then\\s+)?(execute|run|output|change)"
    ∷ pattern_of "INJ-082" "output format hijack"
        "(?i)(always|must|should)\\s+(start|begin|prefix|prepend)\\s+(your\\s+)?(response|output|answer)\\s+with"
    ∷ pattern_of "INJ-090" "tool call injection"
        "(?i)(call|invoke|execute|use)\\s+(the\\s+)?(tool|function|api)\\s+"
    ∷ pattern_of "INJ-091" "fake tool result injection"
        "(?i)<(tool_result|function_result|api_response)>"
    ∷ pattern_of "INJ-092" "function calling format injection"
        "(?i)\\{\"(name|function|tool)\"\\s*:\\s*\""
    ∷ []
