-- ===== src/Tests/Breakers.antt =====
-- Runs of internal/llm/breaker.go.
use agent_claw.Base.{ℕ, List, [], ◌∷◌, arith, some, Dict}
use agent_claw.Llm.Errors.{Error, text}
use agent_claw.Llm.Breaker.{Breaker, new_breaker, circuit_open}
use agent_claw.Llm.Breaker.Runs.{Call, ask, succeed, fail, run, IsConsistent, run-IsConsistent}

abbrev flaky : List Call
flaky = fail 1 (text "EOF") ∷ fail 2 (text "EOF") ∷ ask 3 ∷ ask 20 ∷ succeed ∷ []

run-IsConsistent_example : IsConsistent (run (new_breaker 2 10) flaky)
run-IsConsistent_example = run-IsConsistent 2 10 flaky (omega arith)

abbrev failures : List (ℕ × Error)
failures = (1, text "EOF") ∷ (2, text "EOF") ∷ []

abbrev tripped : Breaker
tripped = record {
  atomic_state = circuit_open;
  failures = 5;
  threshold = 5;
  cooldown = 10;
  opened_at = 100;
  last_err = some (text "EOF");
}

abbrev requests : List ℕ
requests = 101 ∷ 110 ∷ 111 ∷ []

abbrev registry : Dict Breaker
registry = ("zhipu", tripped) ∷ []
