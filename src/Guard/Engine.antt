-- ===== src/Guard/Engine.antt =====
-- internal/guard/guard.go: the checks, on the counters of violations and the events published. The counters
-- change under the mutex or atomically, so a concurrent run is a sequence of these calls.
pub mod Records
pub mod Admission
pub mod Refusals
pub mod Verdicts
use agent_claw.Base.{
  ℕ, zero, suc, ◌+◌, ◌%◌, String, Bool, true, false, not, ◌&&◌, ◌||◌, List, [], ◌∷◌, Option, none,
  some, ◌==◌, ◌⧺◌, Dict, lookup, insert, if◌then◌else◌, leb, ltb, len, slice, starts_with, join,
  itoa, quote, State, pure, ◌>>=◌, ◌>>◌,
}
use agent_claw.Domain.Types.{Event, human_channel}
use agent_claw.Guard.Types.{
  Pattern, CommandPattern, Target, binary, args, full, re_matches, Verdict,
}
use agent_claw.Guard.Patterns.Commands.{command_patterns}
use agent_claw.Guard.Patterns.Injection.{injection_patterns}
use agent_claw.Guard.Patterns.Paths.{path_patterns, path_role_overrides}
use agent_claw.Guard.Patterns.Secrets.{secret_patterns}
use agent_claw.Guard.Patterns.Workflow.{
  role_binary_allowlist, role_write_path_prefixes, max_input_length,
}

-- `Engine`, with the events that the bus was given, the newest first.
pub record Engine : Type 0 where
  pub has_bus : Bool
  pub violation_count : ℕ
  pub agent_violations : Dict ℕ
  pub published : List Event

-- `NewEngine`.
unfoldable pub new_engine : Bool → Engine
new_engine has_bus = record {
  has_bus = has_bus;
  violation_count = 0;
  agent_violations = [];
  published = [];
}

abbrev pub Act : Type 0 → Type 0
Act A = State Engine A

or_zero : Option ℕ → ℕ
or_zero none = 0
or_zero (some n) = n

-- `ViolationCount` and `AgentViolationCount`.
unfoldable pub agent_violation_count : String → Engine → ℕ
unfolding or_zero
agent_violation_count role e = or_zero (lookup role e.agent_violations)

unfoldable pub violation_event : String → Verdict → Event
violation_event role v = record {
  type = "guard.violation";
  channel = human_channel;
  task_id = "";
  agent_id = "";
  agent_role = role;
  model = "";
  payload = ("rule", v.rule) ∷ ("category", v.category) ∷ ("reason", v.reason) ∷ [];
  occurred_at = 0;
}

-- `recordViolation`; the total is a `uint64`.
unfoldable pub record_violation : String → Verdict → Engine → Engine
unfolding violation_event
record_violation role v e = record e {
  violation_count = (e.violation_count + 1) % 0x10000000000000000;
  agent_violations = insert role (agent_violation_count role e + 1) e.agent_violations;
  published = if e.has_bus then violation_event role v ∷ e.published else e.published;
}

abbrev pub verdict : String → String → String → Verdict
verdict rule category reason = record {
  blocked = true;
  rule = rule;
  category = category;
  reason = reason;
}

-- A check returns its verdict, which is recorded, or none.
unfoldable pub decide : String → Option Verdict → Act (Option Verdict)
decide role none e = (none, e)
decide role (some v) e = (some v, record_violation role v e)

-- The first entry of a table that matches.
unfoldable pub first {ℓ} : {A : Type ℓ} → (A → Bool) → List A → Option A
first test [] = none
first test (a ∷ others) = let rest = first test others in if test a then some a else rest

or_else {ℓ} : {A : Type ℓ} → Option A → Option A → Option A
or_else (some a) other = some a
or_else none other = other

-- The first entry as a verdict.
unfoldable pub verdict_by {ℓ} : {A : Type ℓ} → (A → Verdict) → Option A → Option Verdict
verdict_by f none = none
verdict_by f (some a) = some (f a)

unfoldable pub holds : String → List String → Bool
holds s [] = false
holds s (t ∷ others) = t == s || holds s others

unfoldable pub truncate : String → ℕ → String
truncate s max_len = if leb (len s) max_len then s else slice s 0 max_len ⧺ "..."

-- The binaries of a role.
binary_rule : String → String → Option (List String) → Option Verdict
unfolding holds
binary_rule role name none = none
binary_rule role name (some []) =
    some (
      verdict "WF-001" "workflow"
        ("role " ⧺ quote role ⧺ " is not allowed to execute any commands"))
binary_rule role name (some (b ∷ allowed)) =
    if holds name (b ∷ allowed)
    then none
    else some (
        verdict "WF-002" "workflow"
          ("role " ⧺ quote role ⧺ " is not allowed to execute " ⧺ quote name))

-- The text that a command pattern looks at.
unfoldable pub target_text : String → List String → Target → String
target_text name arguments binary = name
target_text name arguments args = join " " arguments
target_text name arguments full = name ⧺ " " ⧺ join " " arguments

unfoldable pub command_verdict : String → String → List String → Option Verdict
unfolding binary_rule or_else target_text truncate
command_verdict role name arguments =
    let whole = name ⧺ " " ⧺ join " " arguments in
    or_else (binary_rule role name (lookup role role_binary_allowlist)) (
      verdict_by
        (λ (p : CommandPattern). verdict p.id "command" (p.reason ⧺ ": " ⧺ truncate whole 200))
        (first (λ (p : CommandPattern). re_matches p.re (target_text name arguments p.targets))
          command_patterns))

-- `CheckCommand`.
unfoldable pub check_command : String → String → List String → Act (Option Verdict)
check_command role name arguments = decide role (command_verdict role name arguments)

unfoldable pub has_prefix_of : String → List String → Bool
has_prefix_of path [] = false
has_prefix_of path (prefix ∷ prefixes) = starts_with path prefix || has_prefix_of path prefixes

-- The places where a role may write.
prefix_rule : String → String → Option (List String) → Option Verdict
unfolding has_prefix_of
prefix_rule role path none = none
prefix_rule role path (some []) =
    some (verdict "WF-010" "workflow" ("role " ⧺ quote role ⧺ " is not allowed to write any files"))
prefix_rule role path (some (p ∷ prefixes)) =
    if has_prefix_of path (p ∷ prefixes)
    then none
    else some (
        verdict "WF-011" "workflow" (
          "role "
          ⧺ quote role
          ⧺ " cannot write to "
          ⧺ quote path
          ⧺ " (allowed prefixes: ["
          ⧺ join " " (p ∷ prefixes)
          ⧺ "])"))

overrides_of : Option (List String) → List String
overrides_of none = []
overrides_of (some ids) = ids

-- Whether a role is exempt from a path pattern.
unfoldable pub is_exempt : String → Pattern → Bool
unfolding overrides_of holds
is_exempt role p = holds p.id (overrides_of (lookup role path_role_overrides))

unfoldable pub file_verdict : String → String → String → Option Verdict
unfolding prefix_rule or_else
file_verdict role path content =
    or_else (prefix_rule role path (lookup role role_write_path_prefixes)) (
      or_else
        (verdict_by (λ (p : Pattern). verdict p.id "path" (p.reason ⧺ ": " ⧺ path))
          (first (λ (p : Pattern). re_matches p.re path && not (is_exempt role p)) path_patterns))
        (verdict_by
          (λ (p : Pattern). verdict p.id "content" ("file " ⧺ quote path ⧺ " contains " ⧺ p.reason))
          (first (λ (p : Pattern). re_matches p.re content) secret_patterns)))

-- `CheckFileWrite`.
unfoldable pub check_file_write : String → String → String → Act (Option Verdict)
check_file_write role path content = decide role (file_verdict role path content)

unfoldable pub input_verdict : String → Option Verdict
input_verdict input =
    verdict_by (λ (p : Pattern). verdict p.id "prompt" ("prompt injection detected: " ⧺ p.reason))
      (first (λ (p : Pattern). re_matches p.re input) injection_patterns)

-- `CheckLLMInput`.
unfoldable pub check_llm_input : String → Act (Option Verdict)
check_llm_input input = decide "llm-input" (input_verdict input)

unfoldable pub output_verdict : String → Option Verdict
unfolding or_else
output_verdict output =
    or_else
      (verdict_by
        (λ (p : CommandPattern).
          verdict ("OUT-" ⧺ p.id) "content"
            ("LLM output contains dangerous command pattern: " ⧺ p.reason))
        (first (λ (p : CommandPattern). re_matches p.re output) command_patterns))
      (verdict_by
        (λ (p : Pattern). verdict ("OUT-" ⧺ p.id) "content" ("LLM output contains " ⧺ p.reason))
        (first (λ (p : Pattern). re_matches p.re output) secret_patterns))

-- `CheckLLMOutput`.
unfoldable pub check_llm_output : String → Act (Option Verdict)
check_llm_output output = decide "llm-output" (output_verdict output)

length_rule : String → String → Option ℕ → Option Verdict
length_rule input_type text none = none
length_rule input_type text (some max_len) =
    if ltb max_len (len text)
    then some (
        verdict "API-001" "workflow"
          (input_type ⧺ " exceeds max length (" ⧺ itoa (len text) ⧺ " > " ⧺ itoa max_len ⧺ ")"))
    else none

unfoldable pub api_verdict : String → String → Option Verdict
unfolding length_rule or_else
api_verdict input_type text =
    or_else (length_rule input_type text (lookup input_type max_input_length)) (
      verdict_by
        (λ (p : Pattern).
          verdict ("API-" ⧺ p.id) "prompt"
            ("injection detected in " ⧺ input_type ⧺ ": " ⧺ p.reason))
        (first (λ (p : Pattern). re_matches p.re text) injection_patterns))

-- `CheckAPIInput`.
unfoldable pub check_api_input : String → String → Act (Option Verdict)
check_api_input input_type text = decide "api" (api_verdict input_type text)
