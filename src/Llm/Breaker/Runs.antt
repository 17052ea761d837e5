-- ===== src/Llm/Breaker/Runs.antt =====
-- Any run of calls of one breaker (internal/llm/breaker.go): what holds between two calls.
use agent_claw.Base.{ℕ, ◌≤◌, ◌<◌, ◌≡◌, ◌≢◌, List, [], ◌∷◌, none, arith}
use agent_claw.Llm.Errors.{Error}
use agent_claw.Llm.Breaker.{
  Breaker, circuit_closed, new_breaker, allow, record_success, record_failure,
}

-- One call of a method of the breaker, at a time of the clock.
pub data Call : Type 0 where
  ask : ℕ → Call
  succeed : Call
  fail : ℕ → Error → Call

pub step : Breaker → Call → Breaker
step b (ask now) = (allow now b).0
step b succeed = record_success b
step b (fail now err) = record_failure now err b

pub run : Breaker → List Call → Breaker
run b [] = b
run b (c ∷ cs) = run (step b c) cs

-- The breaker is closed exactly below its threshold, and it has an error to show exactly when a
-- failure is counted.
pub record IsConsistent (b : Breaker) : Type 0 where
  pub threshold_pos : 0 < b.threshold
  pub closed_below : b.atomic_state ≡ circuit_closed → b.failures < b.threshold
  pub tripped_at : b.atomic_state ≢ circuit_closed → b.threshold ≤ b.failures
  pub no_error : b.failures ≡ 0 → b.last_err ≡ none
  pub error_kept : b.last_err ≡ none → b.failures ≡ 0

new_breaker-IsConsistent :
    (threshold cooldown : ℕ) → 0 < threshold → IsConsistent (new_breaker threshold cooldown)
unfolding new_breaker
new_breaker-IsConsistent threshold cooldown h = ground arith

step-IsConsistent : (b : Breaker) (c : Call) → IsConsistent b → IsConsistent (step b c)
unfolding step allow record_success record_failure
step-IsConsistent b (ask now) h = ground arith
step-IsConsistent b succeed h = ground arith
step-IsConsistent b (fail now err) h = ground arith

run-from-IsConsistent : (b : Breaker) (cs : List Call) → IsConsistent b → IsConsistent (run b cs)
unfolding run
run-from-IsConsistent b [] h = h
run-from-IsConsistent b (c ∷ cs) h = run-from-IsConsistent (step b c) cs (step-IsConsistent b c h)

-- After any sequence of calls on a new breaker with a positive threshold, the breaker is closed
-- exactly when it counts fewer failures than its threshold, and it has a last error exactly when it
-- counts a failure.
pub run-IsConsistent :
    (threshold cooldown : ℕ) (cs : List Call)
    → 0 < threshold
    → IsConsistent (run (new_breaker threshold cooldown) cs)
run-IsConsistent threshold cooldown cs h =
    run-from-IsConsistent (new_breaker threshold cooldown) cs
      (new_breaker-IsConsistent threshold cooldown h)
