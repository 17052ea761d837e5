-- ===== src/Llm/Router/Wedged.antt =====
-- A probe that ends with a permanent error (internal/llm/router.go, internal/llm/breaker.go).
use agent_claw.Base.{
  ℕ, ◌+◌, ◌≤◌, ◌≡◌, refl, ap, ◌∙◌, String, List, [], ◌∷◌, none, some, arith, lookup, Dict, true,
  All, ◌⧺◌,
}
use package.text.Mathlib.TextPositions.{eq_refl}
use agent_claw.Llm.Errors.{Error, text, wrap, is_permanent_error}
use agent_claw.Llm.Provider.{llm_providers, provider_for_model}
use agent_claw.Llm.Breaker.{Breaker, probe_in_progress, circuit_open, circuit_half_open, allow}
use agent_claw.Llm.Breaker.Registry.{or_new}
use agent_claw.Llm.Types.{Request, err, Env, Router, Pricing}
use agent_claw.Llm.Router.{call, after_allow, allow_request}
use agent_claw.Llm.Router.Settling.{breaker_of, allow_request_lem, dispatch_permanent}

-- The calls of a list, one after the other, and whether each ends with an error.
pub call_all : Env → Dict Pricing → List Request → Router → Router
call_all e table [] r = r
call_all e table (req ∷ rest) r = call_all e table rest (call e table req r).1

allow-half_open :
    (now : ℕ) (b : Breaker)
    → b.atomic_state ≡ circuit_half_open
    → ((allow now b).0 ≡ b) × ((allow now b).1 ≡ some probe_in_progress)
unfolding allow
allow-half_open now b h = ground arith

allow-due :
    (now : ℕ) (b : Breaker)
    → b.atomic_state ≡ circuit_open
    → b.opened_at + b.cooldown ≤ now
    → ((allow now b).0.atomic_state ≡ circuit_half_open) × ((allow now b).1 ≡ none)
unfolding allow
allow-due now b h due = ground arith

-- A call while the breaker of its provider is half-open posts nothing and leaves it half-open.
call_half_open :
    (e : Env) (table : Dict Pricing) (req : Request) (r : Router)
    → (breaker_of (provider_for_model req.model) r).atomic_state ≡ circuit_half_open
    → ((breaker_of (provider_for_model req.model) (call e table req r).1).atomic_state
        ≡ circuit_half_open)
      × ((call e table req r).1.trace ≡ r.trace)
      × (call e table req r).0
        ≡ err (
            wrap
              ("llm " ⧺ provider_for_model req.model)
              (text "circuit half-open, probe in progress"))
unfolding call after_allow
call_half_open e table req r h =
    let p = provider_for_model req.model in
    let kept = allow_request_lem p p (e.now r.trace) r in
    let same = allow-half_open (e.now r.trace) (breaker_of p r) h in
    rw (kept.0 ∙ same.1) (ground (arith, kept.1, same.0, eq_refl p, h), kept.3, refl)

call_all_half_open :
    (e : Env) (table : Dict Pricing) (p : String) (reqs : List Request) (r : Router)
    → (breaker_of p r).atomic_state ≡ circuit_half_open
    → All (λ req. provider_for_model req.model ≡ p) reqs
    → (call_all e table reqs r).trace ≡ r.trace
unfolding call_all
call_all_half_open e table p [] r h same = refl
call_all_half_open e table p (req ∷ rest) r h same =
    let one = call_half_open e table req r (rw same.0 h) in
    call_all_half_open e table p rest (call e table req r).1 (rw same.0 at (one.0)) same.1 ∙ one.1

-- The probe: the breaker is open, its cooldown has passed, and the call ends with a permanent error.
probe_permanent :
    (e : Env) (table : Dict Pricing) (req : Request) (r : Router) (e' : Error)
    → let b = breaker_of (provider_for_model req.model) r in
      b.atomic_state ≡ circuit_open
      → b.opened_at + b.cooldown ≤ e.now r.trace
      → (call e table req r).0 ≡ err e'
      → is_permanent_error e' ≡ true
      → (breaker_of (provider_for_model req.model) (call e table req r).1).atomic_state
        ≡ circuit_half_open
unfolding call after_allow
probe_permanent e table req r e' h due res perm =
    let p = provider_for_model req.model in
    let kept = allow_request_lem p p (e.now r.trace) r in
    let now_half = allow-due (e.now r.trace) (breaker_of p r) h due in
    let go = kept.0 ∙ now_half.1 in
    let s = (allow_request p (e.now r.trace) r).1 in
    rw go (
      ap (λ m. (or_new (lookup p m)).atomic_state)
        (dispatch_permanent e table req p (e.now r.trace) (lookup req.model llm_providers) s e'
          (rw go at res) perm)
      ∙ ground (arith, kept.1, now_half.0, eq_refl p))

-- When the probe of an open breaker whose cooldown has passed ends with a permanent error, the
-- breaker stays half-open: whatever requests for that provider follow, at whatever times, none of
-- them posts anything.
pub permanent_probe_wedges :
    (e : Env) (table : Dict Pricing) (req : Request) (r : Router) (e' : Error)
    (later : List Request)
    → (breaker_of (provider_for_model req.model) r).atomic_state ≡ circuit_open
    → (breaker_of (provider_for_model req.model) r).opened_at
        + (breaker_of (provider_for_model req.model) r).cooldown
      ≤ e.now r.trace
    → (call e table req r).0 ≡ err e'
    → is_permanent_error e' ≡ true
    → All (λ next. provider_for_model next.model ≡ provider_for_model req.model) later
    → let r' = (call e table req r).1 in
      ((breaker_of (provider_for_model req.model) r').atomic_state ≡ circuit_half_open)
      × ((call_all e table later r').trace ≡ r'.trace)
permanent_probe_wedges e table req r e' later tripped due res perm same =
    let h = probe_permanent e table req r e' tripped due res perm in
    (
      h,
      call_all_half_open e table (provider_for_model req.model) later (call e table req r).1 h same,
    )
