-- ===== src/Tests/Memories.antt =====
-- Runs of `enforceTokenBudget` of internal/memory/store.go.
use agent_claw.Base.{◌≡◌, refl, ◌+◌, ◌≤◌, [], ◌∷◌, lookup, arith}
use agent_claw.Memory.{
  MemoryContext, estimate_tokens, trim_list, trimmed, total, enforce_token_budget, budget_of,
}
use agent_claw.Memory.Budget.{enforce_token_budget_bounded}

abbrev notes : MemoryContext
notes = record {
  project_doc = "A store for books";
  agent_doc = "Write tests first";
  relevant_code = "main.go" ∷ [];
  adrs = "Use Go" ∷ "Use Postgres" ∷ [];
}

-- The last record goes first.
drops_last : (trimmed 2 notes).adrs ≡ "Use Go" ∷ []
unfolding trimmed trim_list estimate_tokens
drops_last = refl

enforce_token_budget_bounded_example :
    (total notes ≤ budget_of "S" → enforce_token_budget notes (budget_of "S") ≡ notes)
    × (total (enforce_token_budget notes (budget_of "S")) ≤ budget_of "S" + 8)
unfolding budget_of lookup
enforce_token_budget_bounded_example =
    enforce_token_budget_bounded notes (budget_of "S") (omega arith)
