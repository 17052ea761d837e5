-- ===== src/Llm/Router/Calls.antt =====
-- `Call` of internal/llm/router.go: what it costs, what it leaves in the breaker and the counters.
use agent_claw.Base.{ℕ, ◌+◌, ◌≤◌, ◌≡◌, ◌≢◌, refl, String, Option, none, some, arith, lookup, Dict}
use agent_claw.Llm.Provider.{LlmProvider, llm_providers, provider_for_model}
use agent_claw.Llm.Breaker.{Rejection}
use agent_claw.Llm.Types.{Request, Response, Outcome, ok, err, panic, Env, Router, Pricing}
use agent_claw.Llm.Fallback.Effort.{posts, waited}
use agent_claw.Llm.Router.{call, after_allow, dispatch, serve, settle, allow_request}
use agent_claw.Llm.Router.Serving.{serve-IsServed}

module _ (e : Env) (table : Dict Pricing) (req : Request) (provider : String) (start : ℕ) where
  settle-trace :
      (result : Outcome Response) (r : Router)
      → (settle e table req provider start result r).1.trace ≡ r.trace
  unfolding settle
  settle-trace (ok resp) r = refl
  settle-trace panic r = refl
  settle-trace (err e') r = ground arith

  settle-ne-panic :
      (result : Outcome Response) (r : Router)
      → result ≢ panic
      → (settle e table req provider start result r).0 ≢ panic
  unfolding settle
  settle-ne-panic (ok resp) r h = λ q. cc
  settle-ne-panic panic r h = absurd (h refl)
  settle-ne-panic (err e') r h = ground arith

  -- The trace grows by so much at most, and the result is no panic.
  abbrev Bounded : Router → Outcome Response × Router → Type 0
  Bounded r result =
      (posts result.1.trace ≤ posts r.trace + 7)
      × (waited result.1.trace ≤ waited r.trace + 80)
      × (result.0 ≢ panic)

  dispatch-Bounded :
      (entry : Option LlmProvider) (r : Router)
      → Bounded r (dispatch e table req provider start entry r)
  unfolding dispatch
  dispatch-Bounded none r = (omega arith, omega arith, λ q. cc)
  dispatch-Bounded (some p) r =
      let h = serve-IsServed e req p r in
      let (result, r') = serve e req p r in
      (
        rw (settle-trace result r') (h.spends.posts_le),
        rw (settle-trace result r') (h.spends.waits_le),
        settle-ne-panic result r' h.no_panic,
      )

  after_allow-Bounded :
      (rejected : Option Rejection) (r : Router)
      → Bounded r (after_allow e table req provider start rejected r)
  unfolding after_allow
  after_allow-Bounded (some rejection) r = (omega arith, omega arith, λ q. cc)
  after_allow-Bounded none r = dispatch-Bounded (lookup req.model llm_providers) r

-- One call posts at most seven HTTP requests, waits at most 80 seconds between retries, and never
-- panics, whatever the request, the network, the clock and the state of the router.
pub call_bounded :
    (e : Env) (table : Dict Pricing) (req : Request) (r : Router)
    → let (result, r') = call e table req r in
      (posts r'.trace ≤ posts r.trace + 7)
      × (waited r'.trace ≤ waited r.trace + 80)
      × (result ≢ panic)
unfolding call
call_bounded e table req r =
    let provider = provider_for_model req.model in
    let (rejected, r') = allow_request provider (e.now r.trace) r in
    after_allow-Bounded e table req provider (e.now r.trace) rejected r'
