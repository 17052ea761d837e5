-- ===== src/Llm/Fallback.antt =====
-- internal/llm/fallback.go: the fallback chain with its retries.
pub mod Effort
pub mod Panics
use agent_claw.Base.{
  ℕ, zero, suc, String, true, false, List, [], ◌∷◌, Option, none, some, lookup, State, pure, gets,
  modify, ◌>>=◌, ◌>>◌, ◌⧺◌, if◌then◌else◌,
}
use agent_claw.Llm.Errors.{Error, wrap, is_permanent_error, error_text}
use agent_claw.Llm.Provider.{LlmProvider, llm_providers, retry_intervals, max_retries}
use agent_claw.Llm.Types.{
  Request, Response, FallbackEvent, Outcome, ok, err, panic, notify, wait, Env, Router,
}
use agent_claw.Llm.Http.{call_openai_compat}

-- `notifyFallback`: the callback runs if there is one.
unfoldable pub notify_fallback : FallbackEvent → State Router (Unit {0})
notify_fallback evt =
    modify (λ (r : Router). if r.has_notifier then record r { trace = notify evt ∷ r.trace } else r)

-- `RetryIntervals[attempt-1]`.
interval : ℕ → List ℕ → ℕ
interval n [] = 0
interval zero (x ∷ xs) = x
interval (suc n) (x ∷ xs) = interval n xs

-- The timer and the `select` before an attempt: the context's error if it ends the wait.
pause : Env → ℕ → State Router (Option Error)
unfolding interval
pause e zero = pure none
pause e (suc n) = do
  modify (λ (r : Router). record r { trace = wait (interval n retry_intervals) ∷ r.trace })
  gets (λ r. e.cancelled r.trace)

-- How the attempts at one model end: with the result of the whole call, or with the last error.
pub data Attempts : Type 0 where
  returned : Outcome Response → Attempts
  moved_on : Option Error → Attempts

fallback_response : String → Response → Response
fallback_response model resp = record resp { model_used = model ⧺ "(fallback)" }

-- The `select` before an attempt: the context's error ends the call.
after_pause : State Router Attempts → Option Error → State Router Attempts
after_pause go none = go
after_pause go (some ctx_err) = pure (returned (err ctx_err))

-- What is done with the result of an attempt: `again` is the rest of the loop.
after_call : (Error → State Router Attempts) → String → Outcome Response → State Router Attempts
unfolding fallback_response
after_call again model (ok resp) = pure (returned (ok (fallback_response model resp)))
after_call again model panic = pure (returned panic)
after_call again model (err e') =
    if is_permanent_error e' then pure (moved_on (some e')) else again e'

-- The loop over the attempts at one model, with the attempts that are left.
pub attempts : ℕ → ℕ → Env → Request → String → LlmProvider → Option Error → State Router Attempts
unfolding pause after_pause after_call
attempts zero attempt e req model p last = pure (moved_on last)
attempts (suc left) attempt e req model p last = do
  ended ← pause e attempt
  after_pause
      (do
        result ← call_openai_compat e (record req { model = model }) p
        after_call (λ e'. attempts left (suc attempt) e req model p (some e')) model result)
      ended

-- The end of `callWithFallback`: the message of a missing error is a nil dereference.
exhausted : Request → String → Option Error → State Router (Outcome Response)
unfolding notify_fallback
exhausted req prev_model none = pure panic
exhausted req prev_model (some last) = do
  notify_fallback (record {
    task_id = req.task_id;
    from_model = prev_model;
    to_model = "";
    err = error_text last;
    exhausted = true;
  })
  pure (err (wrap "fallback chain exhausted" last))

-- What is done after the attempts at one model: `next` is the rest of the loop.
after_attempts :
    (Option Error → State Router (Outcome Response)) → Attempts → State Router (Outcome Response)
after_attempts next (returned r) = pure r
after_attempts next (moved_on last) = next last

-- The event that a model takes over.
taking_over : Request → String → String → FallbackEvent
taking_over req prev_model model = record {
  task_id = req.task_id;
  from_model = prev_model;
  to_model = model;
  err = "";
  exhausted = false;
}

-- One round of the loop over the models, by the entry of the registry.
try_model :
    Env
    → Request
    → String
    → String
    → Option Error
    → State Router (Outcome Response)
    → (Option Error → State Router (Outcome Response))
    → Option LlmProvider
    → State Router (Outcome Response)
unfolding notify_fallback taking_over after_attempts
try_model e req prev_model model last skip next none = skip
try_model e req prev_model model last skip next (some p) = do
  notify_fallback (taking_over req prev_model model)
  ended ← attempts max_retries 0 e req model p last
  after_attempts next ended

-- The loop of `callWithFallback` over the models.
try_chain : Env → Request → List String → String → Option Error → State Router (Outcome Response)
unfolding exhausted try_model
try_chain e req [] prev_model last = exhausted req prev_model last
try_chain e req (model ∷ rest) prev_model last =
    try_model e req prev_model model last (try_chain e req rest prev_model last)
      (try_chain e req rest model) (lookup model llm_providers)

-- `callWithFallback`.
unfoldable pub call_with_fallback : Env → Request → List String → State Router (Outcome Response)
unfolding try_chain
call_with_fallback e req chain = try_chain e req chain req.model none
