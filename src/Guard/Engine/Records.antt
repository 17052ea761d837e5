-- ===== src/Guard/Engine/Records.antt =====
-- What the counters of internal/guard/guard.go count.
use agent_claw.Base.{
  ℕ, suc, ◌+◌, ◌%◌, ◌≡◌, subst, String, Bool, List, [], ◌∷◌, Option, none, some, Dict, lookup,
  insert, if◌then◌else◌, arith, length,
}
use agent_claw.Guard.Types.{Verdict}
use agent_claw.Guard.Engine.{
  Engine, new_engine, record_violation, agent_violation_count, decide, or_zero, check_command,
  check_file_write, check_llm_input, check_llm_output, check_api_input,
}

-- The calls of the engine.
pub data Call : Type 0 where
  command : String → String → List String → Call
  file_write : String → String → String → Call
  llm_input llm_output : String → Call
  api_input : String → String → Call

abbrev pub step : Call → Engine → Option Verdict × Engine
step (command role name arguments) = check_command role name arguments
step (file_write role path content) = check_file_write role path content
step (llm_input input) = check_llm_input input
step (llm_output output) = check_llm_output output
step (api_input input_type text) = check_api_input input_type text

abbrev pub is_blocked : Option Verdict → ℕ
is_blocked none = 0
is_blocked (some v) = 1

-- The engine after some calls, and how many of them were blocked.
abbrev pub run : List Call → Engine → Engine
run [] e = e
run (c ∷ calls) e = run calls (step c e).1

abbrev pub blocked : List Call → Engine → ℕ
blocked [] e = 0
blocked (c ∷ calls) e = is_blocked (step c e).0 + blocked calls (step c e).1

-- The sum of the counts of the roles.
abbrev pub sum : Dict ℕ → ℕ
sum [] = 0
sum (entry ∷ others) = entry.1 + sum others

-- So many violations were counted: in all, by roles, and as events where there is a bus.
pub record IsCounted (n : ℕ) (e : Engine) : Type 0 where
  pub total : e.violation_count ≡ n % 0x10000000000000000
  pub by_role : sum e.agent_violations ≡ n
  pub events : length e.published ≡ (if e.has_bus then n else 0)

sum-insert :
    (role : String) (n : ℕ) (d : Dict ℕ)
    → sum (insert role n d) + or_zero (lookup role d) ≡ sum d + n
unfolding insert lookup or_zero
sum-insert role n [] = omega arith
sum-insert role n (entry ∷ d) = ground (arith, sum-insert role n d)

record_violation-IsCounted :
    (role : String) (v : Verdict) (n : ℕ) (e : Engine)
    → IsCounted n e
    → IsCounted (suc n) (record_violation role v e)
unfolding record_violation agent_violation_count
record_violation-IsCounted role v n e h = record {
  total = omega (arith, h.total);
  by_role =
      omega
        (arith, h.by_role, sum-insert role (agent_violation_count role e + 1) e.agent_violations);
  events = ground (arith, h.events);
}

decide-IsCounted :
    (role : String) (v : Option Verdict) (n : ℕ) (e : Engine)
    → IsCounted n e
    → IsCounted (is_blocked (decide role v e).0 + n) (decide role v e).1
unfolding decide
decide-IsCounted role none n e h = subst (λ m. IsCounted m e) (omega arith) h
decide-IsCounted role (some v) n e h =
    subst (λ m. IsCounted m (record_violation role v e)) (omega arith)
      (record_violation-IsCounted role v n e h)

step-IsCounted :
    (c : Call) (n : ℕ) (e : Engine)
    → IsCounted n e
    → IsCounted (is_blocked (step c e).0 + n) (step c e).1
unfolding check_command check_file_write check_llm_input check_llm_output check_api_input
step-IsCounted (command role name arguments) n e h = decide-IsCounted role _ n e h
step-IsCounted (file_write role path content) n e h = decide-IsCounted role _ n e h
step-IsCounted (llm_input input) n e h = decide-IsCounted _ _ n e h
step-IsCounted (llm_output output) n e h = decide-IsCounted _ _ n e h
step-IsCounted (api_input input_type text) n e h = decide-IsCounted _ _ n e h

run-IsCounted_from :
    (calls : List Call) (n : ℕ) (e : Engine)
    → IsCounted n e
    → IsCounted (blocked calls e + n) (run calls e)
run-IsCounted_from [] n e h = subst (λ m. IsCounted m e) (omega arith) h
run-IsCounted_from (c ∷ calls) n e h =
    subst (λ m. IsCounted m (run (c ∷ calls) e)) (omega arith)
      (run-IsCounted_from calls (is_blocked (step c e).0 + n) (step c e).1 (step-IsCounted c n e h))

-- After any calls of a new engine the total counts those that were blocked (modulo 2 ^ 64), the counts of
-- the roles add up to them, and where there is a bus it was given one event for each.
pub run-IsCounted :
    (calls : List Call) (has_bus : Bool)
    → IsCounted (blocked calls (new_engine has_bus)) (run calls (new_engine has_bus))
unfolding new_engine
run-IsCounted calls has_bus =
    subst (λ m. IsCounted m (run calls (new_engine has_bus))) (omega arith)
      (run-IsCounted_from calls 0 (new_engine has_bus)
        (record { total = omega arith; by_role = omega arith; events = ground arith }))
