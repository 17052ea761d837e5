-- ===== src/Llm/Breaker/Opening.antt =====
-- When a breaker opens, and what an open one lets through (internal/llm/breaker.go).
use agent_claw.Base.{
  ℕ, suc, ◌+◌, ◌≤◌, ◌<◌, ◌≡◌, refl, Bool, false, ◌||◌, List, [], ◌∷◌, none, some, arith, leb,
  length, if◌then◌else◌, Bool-cases, inl, inr,
}
use agent_claw.Llm.Errors.{Error}
use agent_claw.Llm.Breaker.{
  Breaker, circuit_closed, circuit_open, circuit_half_open, new_breaker, allow, record_failure,
}

-- Failures with no success between them.
pub fail_all : Breaker → List (ℕ × Error) → Breaker
fail_all b [] = b
fail_all b ((now, err) ∷ rest) = fail_all (record_failure now err b) rest

record_failure-closed :
    (now : ℕ) (err : Error) (b : Breaker)
    → ((record_failure now err b).failures ≡ b.failures + 1)
      × ((record_failure now err b).threshold ≡ b.threshold)
      × ((record_failure now err b).atomic_state
          ≡ (if leb b.threshold (b.failures + 1) then circuit_open else b.atomic_state))
unfolding record_failure
record_failure-closed now err b = ground arith

fail_all-open :
    (b : Breaker) (errs : List (ℕ × Error))
    → b.atomic_state ≡ circuit_open
    → b.threshold ≤ b.failures
    → (fail_all b errs).atomic_state ≡ circuit_open
unfolding fail_all
fail_all-open b [] o h = o
fail_all-open b ((now, err) ∷ rest) o h =
    let r = record_failure-closed now err b in
    fail_all-open (record_failure now err b) rest (ground (arith, r)) (omega (arith, r.0, r.1))

fail_all-state :
    (b : Breaker) (errs : List (ℕ × Error))
    → b.atomic_state ≡ circuit_closed
    → b.failures < b.threshold
    → (fail_all b errs).atomic_state
      ≡ (if leb b.threshold (b.failures + length errs) then circuit_open else circuit_closed)
unfolding fail_all
fail_all-state b [] c h = ground arith
fail_all-state b ((now, err) ∷ rest) c h =
    let r = record_failure-closed now err b in
    elim (Bool-cases (leb b.threshold (b.failures + 1))) [
      | inl over ↦ ground (
        arith,
        r,
        fail_all-open (record_failure now err b) rest (ground (arith, r)) (ground (arith, r)),
      )
      | inr under ↦ ground (
        arith,
        r,
        fail_all-state (record_failure now err b) rest (ground (arith, r)) (ground (arith, r)),
      )
    ]

-- A new breaker on which only failures are recorded is open when there were at least `threshold` of
-- them, and closed before that.
pub opens_at_threshold :
    (threshold cooldown : ℕ) (errs : List (ℕ × Error))
    → 0 < threshold
    → (fail_all (new_breaker threshold cooldown) errs).atomic_state
      ≡ (if leb threshold (length errs) then circuit_open else circuit_closed)
unfolding new_breaker
opens_at_threshold threshold cooldown errs h =
    ground (arith, fail_all-state (new_breaker threshold cooldown) errs refl h)

-- How many of the requests made at these times `allow` lets through, with no result recorded.
pub granted : List ℕ → Breaker → ℕ
granted [] b = 0
granted (now ∷ rest) b =
    let (b', rejection) = allow now b in
    let others = granted rest b' in elim rejection [ none ↦ suc others | some r ↦ others ]

pub any_due : ℕ → List ℕ → Bool
any_due due [] = false
any_due due (now ∷ rest) = leb due now || any_due due rest

granted-half_open :
    (times : List ℕ) (b : Breaker) → b.atomic_state ≡ circuit_half_open → granted times b ≡ 0
unfolding granted allow
granted-half_open [] b h = refl
granted-half_open (now ∷ rest) b h = ground (arith, granted-half_open rest b h)

-- Of the requests made of an open breaker before a result is recorded, exactly one is let through if
-- one is made when the cooldown has passed, and none otherwise.
pub one_probe :
    (times : List ℕ) (b : Breaker)
    → b.atomic_state ≡ circuit_open
    → granted times b ≡ (if any_due (b.opened_at + b.cooldown) times then 1 else 0)
unfolding granted allow any_due
one_probe [] b h = refl
one_probe (now ∷ rest) b h = elim (Bool-cases (leb (b.opened_at + b.cooldown) now)) [
  | inl due ↦
      ground (arith, granted-half_open rest (record b { atomic_state = circuit_half_open }) refl)
  | inr early ↦ ground (arith, one_probe rest b h)
]
