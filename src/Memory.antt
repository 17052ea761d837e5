-- ===== src/Memory.antt =====
-- internal/memory/store.go and context.go: the budget of the memory that goes into a request.
pub mod Budget
use agent_claw.Base.{
  ℕ, ◌+◌, ◌-◌, ◌*◌, ◌/◌, String, Bool, List, [], ◌∷◌, ◌⧺◌, ◌==◌, if◌then◌else◌, ltb, leb, len,
  slice, Dict, Option, none, some, lookup,
}

-- The texts of `MemoryContext`; the rest of it is not counted.
pub record MemoryContext : Type 0 where
  pub project_doc : String
  pub agent_doc : String
  pub relevant_code : List String
  pub adrs : List String

-- `estimateTokens`.
unfoldable pub estimate_tokens : String → ℕ
estimate_tokens s = (len s + 3) / 4

-- `truncateToTokens`; a character that the cut divides is left out here, where Go keeps its first bytes.
unfoldable pub truncate_to_tokens : String → ℕ → String
truncate_to_tokens s max_tokens =
    if leb (len s) (max_tokens * 4) then s else slice s 0 (max_tokens * 4) ⧺ "... [truncated]"

-- `maxContextTokens`, and the budget of a complexity.
abbrev pub max_context_tokens : Dict ℕ
max_context_tokens = ("S", 2000) ∷ ("M", 6000) ∷ ("L", 12000) ∷ []

or_medium : Option ℕ → ℕ
or_medium none = 6000
or_medium (some n) = n

unfoldable pub budget_of : String → ℕ
unfolding or_medium
budget_of complexity =
    or_medium (lookup (if complexity == "" then "M" else complexity) max_context_tokens)

-- The tokens of a list of texts.
unfoldable pub total_of : List String → ℕ
total_of [] = 0
total_of (s ∷ texts) = estimate_tokens s + total_of texts

unfoldable pub total : MemoryContext → ℕ
unfolding total_of
total ctx =
    estimate_tokens ctx.project_doc
    + estimate_tokens ctx.agent_doc
    + total_of ctx.relevant_code
    + total_of ctx.adrs

-- The list without its last texts, which go one by one while there is an excess, and the excess that is left;
-- an excess below 0 counts as 0, as no step tells them apart.
unfoldable pub trim_list : List String → ℕ → List String × ℕ
unfolding estimate_tokens
trim_list [] excess = ([], excess)
trim_list (s ∷ texts) excess =
    let (kept, left) = trim_list texts excess in
    if ltb 0 left then (kept, left - estimate_tokens s) else (s ∷ kept, left)

min_tokens : ℕ
min_tokens = 200

unfoldable pub least : ℕ → ℕ → ℕ
least a b = if ltb b a then b else a

-- One section: cut by the excess, but not below 200 tokens.
unfoldable pub trim_section : String → ℕ → String × ℕ
unfolding estimate_tokens truncate_to_tokens min_tokens least
trim_section s excess =
    let current = estimate_tokens s in
    let trim_amount = least (current - min_tokens) excess in
    if leb excess 0
    then (s, excess)
    else if leb current min_tokens
    then (s, excess)
    else (truncate_to_tokens s (current - trim_amount), excess - trim_amount)

-- The three phases for an excess: the ADRs, the code, then the project's document before the agent's.
unfoldable pub trimmed : ℕ → MemoryContext → MemoryContext
unfolding trim_list trim_section
trimmed excess ctx =
    let (adrs, after_adrs) = trim_list ctx.adrs excess in
    let (code, after_code) = trim_list ctx.relevant_code after_adrs in
    let (project_doc, after_project) = trim_section ctx.project_doc after_code in
    let (agent_doc, after_agent) = trim_section ctx.agent_doc after_project in
    record { project_doc = project_doc; agent_doc = agent_doc; relevant_code = code; adrs = adrs }

-- `enforceTokenBudget`.
unfoldable pub enforce_token_budget : MemoryContext → ℕ → MemoryContext
unfolding total trimmed
enforce_token_budget ctx budget =
    if leb (total ctx) budget then ctx else trimmed (total ctx - budget) ctx
