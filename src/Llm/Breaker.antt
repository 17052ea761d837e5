-- ===== src/Llm/Breaker.antt =====
-- internal/llm/breaker.go: one circuit breaker per provider. Each method runs under the breaker's
-- mutex or is one atomic load, so a concurrent run is a sequence of these calls. Times and durations
-- are nanoseconds of the monotonic clock.
pub mod Runs
pub mod Opening
pub mod Registry
use agent_claw.Base.{
  ℕ, ◌+◌, ◌-◌, String, Option, none, some, Dict, lookup, insert, leb, if◌then◌else◌,
}
use agent_claw.Llm.Errors.{Error}

-- `circuitState`.
pub data CircuitState : Type 0 where
  circuit_closed circuit_open circuit_half_open : CircuitState

-- `breaker`.
pub record Breaker : Type 0 where
  pub atomic_state : CircuitState
  pub failures : ℕ
  pub threshold : ℕ
  pub cooldown : ℕ
  pub opened_at : ℕ
  pub last_err : Option Error

-- The errors of `allow`.
pub data Rejection : Type 0 where
  still_open : Option Error → ℕ → Rejection
  probe_in_progress : Rejection

-- `newBreaker`.
unfoldable pub new_breaker : ℕ → ℕ → Breaker
new_breaker threshold cooldown = record {
  atomic_state = circuit_closed;
  failures = 0;
  threshold = threshold;
  cooldown = cooldown;
  opened_at = 0;
  last_err = none;
}

-- The `switch` of `allow`; `time.Since(openedAt) >= cooldown` without the difference.
allow_in : CircuitState → ℕ → Breaker → Breaker × Option Rejection
allow_in circuit_closed now b = (b, none)
allow_in circuit_open now b =
    if leb (b.opened_at + b.cooldown) now
    then (record b { atomic_state = circuit_half_open }, none)
    else (b, some (still_open b.last_err (b.opened_at + b.cooldown - now)))
allow_in circuit_half_open now b = (b, some probe_in_progress)

-- `allow`. The fast path returns what the first case of the `switch` does.
unfoldable pub allow : ℕ → Breaker → Breaker × Option Rejection
unfolding allow_in
allow now b = allow_in b.atomic_state now b

-- `recordSuccess`.
unfoldable pub record_success : Breaker → Breaker
record_success b = record b { failures = 0; last_err = none; atomic_state = circuit_closed }

-- `recordFailure`.
unfoldable pub record_failure : ℕ → Error → Breaker → Breaker
record_failure now err b =
    let b' = record b { failures = b.failures + 1; last_err = some err } in
    if leb b'.threshold b'.failures
    then record b' { atomic_state = circuit_open; opened_at = now }
    else b'

-- 60 * time.Second.
abbrev pub default_cooldown : ℕ
default_cooldown = 60_000_000_000

-- `breakerRegistry.get`: the breaker, and the registry that holds it.
unfoldable pub get_breaker : String → Dict Breaker → Breaker × Dict Breaker
unfolding new_breaker
get_breaker provider breakers = elim (lookup provider breakers) [
  | some b ↦ (b, breakers)
  | none ↦ let b = new_breaker 5 default_cooldown in (b, insert provider b breakers)
]
