-- ===== src/Llm/Fallback/Panics.antt =====
-- When the fallback chain (internal/llm/fallback.go) does not dereference a missing error.
use agent_claw.Base.{
  ℕ, zero, suc, ◌≡◌, ◌≢◌, String, List, [], ◌∷◌, Option, none, some, lookup, State, pure, ◌>>=◌,
  Bool, true, false, if◌then◌else◌,
}
use agent_claw.Llm.Errors.{Error, is_permanent_error}
use agent_claw.Llm.Provider.{LlmProvider, llm_providers, max_retries}
use agent_claw.Llm.Types.{Request, Response, Outcome, ok, err, panic, Env, Router}
use agent_claw.Llm.Http.{call_openai_compat}
use agent_claw.Llm.Http.Posts.{call_openai_compat_lem}
use agent_claw.Llm.Fallback.{
  Attempts, returned, moved_on, pause, attempts, after_pause, after_call, try_model, taking_over,
  after_attempts, exhausted, try_chain, call_with_fallback, notify_fallback,
}

-- The attempts have ended the call without a panic, or with an error to go on from.
IsSettled : Attempts → Type 0
IsSettled (returned r) = r ≢ panic
IsSettled (moved_on none) = ⊥
IsSettled (moved_on (some e)) = Unit

-- `m` ends with such a result from any router.
abbrev Ends : State Router Attempts → Type 0
Ends m = (r : Router) → IsSettled (m r).0

Ends-after_pause :
    (go : State Router Attempts) (ended : Option Error) → Ends go → Ends (after_pause go ended)
unfolding after_pause IsSettled
Ends-after_pause go none h = h
Ends-after_pause go (some ctx_err) h = λ r q. cc

Ends-after_call :
    (again : Error → State Router Attempts) (model : String) (result : Outcome Response)
    → result ≢ panic
    → ((e : Error) → Ends (again e))
    → Ends (after_call again model result)
unfolding after_call IsSettled
Ends-after_call again model (ok resp) n h = λ r q. cc
Ends-after_call again model panic n h = λ r. n
Ends-after_call again model (err e) n h = λ r. permanent (is_permanent_error e) r
  where
    permanent :
        (b : Bool) (r : Router) → IsSettled ((if b then pure (moved_on (some e)) else again e) r).0
    permanent true r = tt
    permanent false r = h e r

Ends-attempt :
    (again : Error → State Router Attempts) (e : Env) (req : Request) (model : String)
    (p : LlmProvider) (attempt : ℕ)
    → ((e' : Error) → Ends (again e'))
    → Ends (pause e attempt >>= after_pause (call_openai_compat e req p >>= after_call again model))
Ends-attempt again e req model p attempt h r =
    Ends-after_pause (call_openai_compat e req p >>= after_call again model) (pause e attempt r).0
      (λ s.
        Ends-after_call again model (call_openai_compat e req p s).0
          (call_openai_compat_lem e req p s).0 h (call_openai_compat e req p s).1)
      (pause e attempt r).1

module _ (e : Env) (req : Request) (model : String) (p : LlmProvider) where
  attempts-after_error :
      (left attempt : ℕ) (last : Error) → Ends (attempts left attempt e req model p (some last))
  unfolding attempts IsSettled
  attempts-after_error zero attempt last = λ r. tt
  attempts-after_error (suc left) attempt last =
      Ends-attempt (λ e'. attempts left (suc attempt) e req model p (some e')) e
        (record req { model = model }) model p attempt
        (λ e'. attempts-after_error left (suc attempt) e')

  attempts_settle :
      (left attempt : ℕ) (last : Option Error)
      → Ends (attempts (suc left) attempt e req model p last)
  unfolding attempts
  attempts_settle left attempt last =
      Ends-attempt (λ e'. attempts left (suc attempt) e req model p (some e')) e
        (record req { model = model }) model p attempt
        (λ e'. attempts-after_error left (suc attempt) e')

abbrev NoPanic : State Router (Outcome Response) → Type 0
NoPanic m = (r : Router) → (m r).0 ≢ panic

NoPanic-after_attempts :
    (next : Option Error → State Router (Outcome Response)) (ended : Attempts)
    → IsSettled ended
    → ((e : Error) → NoPanic (next (some e)))
    → NoPanic (after_attempts next ended)
unfolding after_attempts IsSettled
NoPanic-after_attempts next (returned r) s h = λ _. s
NoPanic-after_attempts next (moved_on none) s h = absurd s
NoPanic-after_attempts next (moved_on (some e)) s h = h e

module _ (e : Env) (req : Request) where
  -- With a known model the round ends well, whatever error there was before.
  NoPanic-known :
      (prev_model model : String) (last : Option Error) (skip : State Router (Outcome Response))
      (next : Option Error → State Router (Outcome Response)) (p : LlmProvider)
      → ((e' : Error) → NoPanic (next (some e')))
      → NoPanic (try_model e req prev_model model last skip next (some p))
  unfolding try_model
  NoPanic-known prev_model model last skip next p h r =
      let told = (notify_fallback (taking_over req prev_model model) r).1 in
      NoPanic-after_attempts next (attempts max_retries 0 e req model p last told).0
        (attempts_settle e req model p 2 0 last told) h
        (attempts max_retries 0 e req model p last told).1

  NoPanic-entry :
      (prev_model model : String) (last : Error) (skip : State Router (Outcome Response))
      (next : Option Error → State Router (Outcome Response)) (entry : Option LlmProvider)
      → NoPanic skip
      → ((e' : Error) → NoPanic (next (some e')))
      → NoPanic (try_model e req prev_model model (some last) skip next entry)
  unfolding try_model
  NoPanic-entry prev_model model last skip next none hs h r = hs r
  NoPanic-entry prev_model model last skip next (some p) hs h r =
      NoPanic-known prev_model model (some last) skip next p h r

  NoPanic-try_chain :
      (chain : List String) (prev_model : String) (last : Error)
      → NoPanic (try_chain e req chain prev_model (some last))
  unfolding try_chain exhausted
  NoPanic-try_chain [] prev_model last r = λ q. cc
  NoPanic-try_chain (model ∷ rest) prev_model last r =
      NoPanic-entry prev_model model last (try_chain e req rest prev_model (some last))
        (try_chain e req rest model) (lookup model llm_providers)
        (NoPanic-try_chain rest prev_model last) (λ e'. NoPanic-try_chain rest model e') r

  -- A chain whose first model is registered does not panic, whatever the network answers.
  pub call_with_fallback-ne-panic :
      (model : String) (rest : List String) (p : LlmProvider) (r : Router)
      → lookup model llm_providers ≡ some p
      → (call_with_fallback e req (model ∷ rest) r).0 ≢ panic
  unfolding call_with_fallback try_chain
  call_with_fallback-ne-panic model rest p r h = rw h (
      NoPanic-known req.model model none (try_chain e req rest req.model none)
        (try_chain e req rest model) p (λ e'. NoPanic-try_chain rest model e') r)
