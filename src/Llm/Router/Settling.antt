-- ===== src/Llm/Router/Settling.antt =====
-- What `Call` of internal/llm/router.go leaves in the breakers and the counters.
use agent_claw.Base.{
  ℕ, ◌≡◌, refl, ap, ◌∙◌, String, Option, none, some, arith, lookup, lookup-insert, Dict, ◌==◌,
  if◌then◌else◌, true, false,
}
use text.Mathlib.TextPositions.{eq_refl}
use agent_claw.Base.Int64.{add64}
use agent_claw.Llm.Errors.{Error, is_permanent_error}
use agent_claw.Llm.Provider.{LlmProvider, llm_providers, provider_for_model}
use agent_claw.Llm.Breaker.{Breaker, Rejection, get_breaker, circuit_closed, record_success, allow}
use agent_claw.Llm.Breaker.Registry.{get_breaker_lem, get_breaker-insert, or_new}
use agent_claw.Llm.Types.{Request, Response, Outcome, ok, err, panic, Env, Router, Pricing}
use agent_claw.Llm.Router.{
  call, after_allow, dispatch, serve, settle, allow_request, on_breaker, count_call, or_zero,
}
use agent_claw.Llm.Router.Serving.{serve-IsServed}

-- The breaker of a provider, new if there is none yet.
abbrev pub breaker_of : String → Router → Breaker
breaker_of provider r = or_new (lookup provider r.breakers)

abbrev pub count_of : String → Router → ℕ
count_of provider r = or_zero (lookup provider r.calls)

-- `allow` changes the breaker of the provider, and nothing else.
pub allow_request_lem :
    (provider q : String) (now : ℕ) (r : Router)
    → let (rejected, r') = allow_request provider now r in
      (rejected ≡ (allow now (breaker_of provider r)).1)
      × (breaker_of q r'
          ≡ (if provider == q then (allow now (breaker_of provider r)).0 else breaker_of q r))
      × (r'.calls ≡ r.calls)
      × (r'.trace ≡ r.trace)
unfolding allow_request
allow_request_lem provider q now r =
    let got = (get_breaker_lem provider q r.breakers).0 in
    (
      ap (λ b. (allow now b).1) got,
      get_breaker-insert provider q (allow now (get_breaker provider r.breakers).0).0 r.breakers
          ∙ ap (λ b. if provider == q then (allow now b).0 else breaker_of q r) got,
      refl,
      refl,
    )

on_breaker_lem :
    (provider q : String) (f : Breaker → Breaker) (r : Router)
    → breaker_of q (on_breaker provider f r).1
      ≡ (if provider == q then f (breaker_of provider r) else breaker_of q r)
unfolding on_breaker
on_breaker_lem provider q f r =
    get_breaker-insert provider q (f (get_breaker provider r.breakers).0) r.breakers
    ∙ ap (λ b. if provider == q then f b else breaker_of q r)
        (get_breaker_lem provider q r.breakers).0

count_call_lem :
    (provider q : String) (r : Router)
    → count_of q (count_call provider r).1
      ≡ (if provider == q then add64 (count_of provider r) 1 else count_of q r)
unfolding count_call
count_call_lem provider q r =
    ground (arith, lookup-insert provider q (add64 (count_of provider r) 1) r.calls)

-- A success: the breaker of the provider is reset and its count grows by one.
abbrev Succeeds : String → String → Router → Router → Type 0
Succeeds provider q r r' =
    (breaker_of q r'
      ≡ (if provider == q then record_success (breaker_of provider r) else breaker_of q r))
    × (count_of q r' ≡ (if provider == q then add64 (count_of provider r) 1 else count_of q r))

module _ (e : Env) (table : Dict Pricing) (req : Request) (provider : String) (start : ℕ) where
  settle_success :
      (q : String) (result : Outcome Response) (r : Router) {resp : Response}
      → (settle e table req provider start result r).0 ≡ ok resp
      → Succeeds provider q r (settle e table req provider start result r).1
  unfolding settle
  settle_success q (ok resp) r h = (
    on_breaker_lem provider q record_success r,
    count_call_lem provider q (on_breaker provider record_success r).1,
  )
  settle_success q panic r h = cc
  settle_success q (err e') r h = absurd (ground arith)

  -- A permanent error leaves everything as it is.
  settle_permanent :
      (result : Outcome Response) (r : Router) (e' : Error)
      → (settle e table req provider start result r).0 ≡ err e'
      → is_permanent_error e' ≡ true
      → (settle e table req provider start result r).1 ≡ r
  unfolding settle
  settle_permanent (ok resp) r e' h p = cc
  settle_permanent panic r e' h p = cc
  settle_permanent (err e'') r e' h p = ground arith

  dispatch_success :
      (q : String) (entry : Option LlmProvider) (r : Router) {resp : Response}
      → (dispatch e table req provider start entry r).0 ≡ ok resp
      → Succeeds provider q r (dispatch e table req provider start entry r).1
  unfolding dispatch
  dispatch_success q none r h = cc
  dispatch_success q (some p) r h =
      let (result, r') = serve e req p r in
      let spent = (serve-IsServed e req p r).spends in
      let done = settle_success q result r' h in
      (
        done.0
            ∙ ap
                (λ m.
                  if provider == q
                  then record_success (or_new (lookup provider m))
                  else or_new (lookup q m))
                spent.same_breakers,
        done.1
            ∙ ap
                (λ m.
                  if provider == q
                  then add64 (or_zero (lookup provider m)) 1
                  else or_zero (lookup q m))
                spent.same_calls,
      )

  pub dispatch_permanent :
      (entry : Option LlmProvider) (r : Router) (e' : Error)
      → (dispatch e table req provider start entry r).0 ≡ err e'
      → is_permanent_error e' ≡ true
      → (dispatch e table req provider start entry r).1.breakers ≡ r.breakers
  unfolding dispatch
  dispatch_permanent none r e' h p = refl
  dispatch_permanent (some p) r e' h q =
      let (result, r') = serve e req p r in
      ap (λ (s : Router). s.breakers) (settle_permanent result r' e' h q)
      ∙ (serve-IsServed e req p r).spends.same_breakers

  after_allow_success :
      (q : String) (rejected : Option Rejection) (r : Router) {resp : Response}
      → (after_allow e table req provider start rejected r).0 ≡ ok resp
      → Succeeds provider q r (after_allow e table req provider start rejected r).1
  unfolding after_allow
  after_allow_success q (some rejection) r h = cc
  after_allow_success q none r h = dispatch_success q (lookup req.model llm_providers) r h

-- A call that returns a response leaves the breaker of its provider closed, with no failure counted
-- and no error kept, and has counted one call of that provider; the breaker and the count of any
-- other provider are as before.
pub call_success :
    (e : Env) (table : Dict Pricing) (req : Request) (r : Router) (q : String) (resp : Response)
    → (call e table req r).0 ≡ ok resp
    → (provider_for_model req.model == q) ≡ false
    → let p = provider_for_model req.model in
      let r' = (call e table req r).1 in
      ((breaker_of p r').atomic_state ≡ circuit_closed)
      × ((breaker_of p r').failures ≡ 0)
      × ((breaker_of p r').last_err ≡ none)
      × (count_of p r' ≡ add64 (count_of p r) 1)
      × (breaker_of q r' ≡ breaker_of q r)
      × (count_of q r' ≡ count_of q r)
unfolding call record_success
call_success e table req r q resp h ne =
    let p = provider_for_model req.model in
    let start = e.now r.trace in
    let (rejected, s) = allow_request p start r in
    let own = after_allow_success e table req p start p rejected s h in
    let other = after_allow_success e table req p start q rejected s h in
    let kept = allow_request_lem p q start r in
    (
      ground (arith, own.0, eq_refl p),
      ground (arith, own.0, eq_refl p),
      ground (arith, own.0, eq_refl p),
      ground (arith, own.1, eq_refl p, kept.2),
      ground (arith, other.0, kept.1),
      ground (arith, other.1, kept.2),
    )
