-- ===== src/Llm/Fallback/Effort.antt =====
-- What the fallback chain (internal/llm/fallback.go) costs at most, and that it does not panic.
use agent_claw.Base.{
  ℕ, zero, suc, ◌+◌, ◌*◌, ◌≤◌, ◌≡◌, inl, inr, String, List, [], ◌∷◌, Option, none, some, arith,
  length, lookup, State, pure, ◌>>=◌, if◌then◌else◌, Bool, true, false,
}
use agent_claw.Llm.Errors.{Error, is_permanent_error}
use agent_claw.Llm.Provider.{LlmProvider, llm_providers, retry_intervals, max_retries}
use agent_claw.Llm.Types.{
  Request, Response, Outcome, ok, err, panic, post, wait, Trace, Env, Router, FallbackEvent,
}
use agent_claw.Llm.Http.{call_openai_compat}
use agent_claw.Llm.Http.Posts.{PostsAtMostOne, call_openai_compat_lem}
use agent_claw.Llm.Fallback.{
  Attempts, returned, moved_on, interval, pause, attempts, after_pause, after_call, try_model,
  taking_over, after_attempts, notify_fallback, exhausted, try_chain, call_with_fallback,
}

-- The requests posted, and the seconds waited.
abbrev pub posts : Trace → ℕ
posts [] = 0
posts (post x ∷ t) = suc (posts t)
posts (_ ∷ t) = posts t

abbrev pub waited : Trace → ℕ
waited [] = 0
waited (wait n ∷ t) = n + waited t
waited (_ ∷ t) = waited t

-- At most so many requests and seconds more, and the breakers and the counters are as before.
pub record Spends (posted seconds : ℕ) (r r' : Router) : Type 0 where
  pub posts_le : posts r'.trace ≤ posts r.trace + posted
  pub waits_le : waited r'.trace ≤ waited r.trace + seconds
  pub same_breakers : r'.breakers ≡ r.breakers
  pub same_calls : r'.calls ≡ r.calls

pub Spends-refl : (p w : ℕ) (r : Router) → Spends p w r r
Spends-refl p w r = ground arith

pub Spends-trans :
    (p w q v : ℕ) {P W : ℕ} {r s t : Router}
    → p + q ≤ P
    → w + v ≤ W
    → Spends p w r s
    → Spends q v s t
    → Spends P W r t
Spends-trans p w q v hp hw first rest = record {
  posts_le = omega (arith, first.posts_le, rest.posts_le);
  waits_le = omega (arith, first.waits_le, rest.waits_le);
  same_breakers = cc (first.same_breakers, rest.same_breakers);
  same_calls = cc (first.same_calls, rest.same_calls);
}

pub Spends-of_post : {r r' : Router} → PostsAtMostOne r r' → Spends 1 0 r r'
Spends-of_post {r} {r'} (inl h) = rw h (Spends-refl 1 0 r)
Spends-of_post {r} {r'} (inr (x, h)) = rw h (ground arith)

-- `m` spends at most so much from any router.
abbrev pub Costs : {A : Type 0} → ℕ → ℕ → State Router A → Type 0
Costs posted seconds m = (r : Router) → Spends posted seconds r (m r).1

module _ {A : Type 0} where
  Costs-pure : (p w : ℕ) (a : A) → Costs p w (pure {S = Router} a)
  Costs-pure p w a r = Spends-refl p w r

  Costs-if :
      (p w : ℕ) (b : Bool) (m n : State Router A)
      → Costs p w m
      → Costs p w n
      → Costs p w (if b then m else n)
  Costs-if p w true m n hm hn = hm
  Costs-if p w false m n hm hn = hn

-- The first part, the rest, and a bound on their sum.
Costs-bind :
    (p w q v : ℕ) {P W : ℕ} {A B : Type 0} (m : State Router A) (f : A → State Router B)
    → p + q ≤ P
    → w + v ≤ W
    → Costs p w m
    → ((a : A) → Costs q v (f a))
    → Costs P W (m >>= f)
Costs-bind p w q v m f hp hw hm hf r = Spends-trans p w q v hp hw (hm r) (hf (m r).0 (m r).1)

Costs-notify_fallback : (evt : FallbackEvent) → Costs 0 0 (notify_fallback evt)
unfolding notify_fallback
Costs-notify_fallback evt r = ground arith

-- The pause before each attempt.
pause_seconds : ℕ → ℕ
unfolding interval
pause_seconds zero = 0
pause_seconds (suc n) = interval n retry_intervals

Costs-pause : (e : Env) (n : ℕ) → Costs 0 (pause_seconds n) (pause e n)
unfolding pause pause_seconds
Costs-pause e zero r = Spends-refl 0 0 r
Costs-pause e (suc n) r = ground arith

-- The pauses of the attempts that are left.
all_pauses : ℕ → ℕ → ℕ
all_pauses zero attempt = 0
all_pauses (suc left) attempt = pause_seconds attempt + all_pauses left (suc attempt)

Costs-after_pause :
    (p w : ℕ) (go : State Router Attempts) (ended : Option Error)
    → Costs p w go
    → Costs p w (after_pause go ended)
unfolding after_pause
Costs-after_pause p w go none h = h
Costs-after_pause p w go (some ctx_err) h = Costs-pure p w (returned (err ctx_err))

Costs-after_call :
    (p w : ℕ) (again : Error → State Router Attempts) (model : String) (result : Outcome Response)
    → ((e : Error) → Costs p w (again e))
    → Costs p w (after_call again model result)
unfolding after_call
Costs-after_call p w again model (ok resp) h = Spends-refl p w
Costs-after_call p w again model panic h = Spends-refl p w
Costs-after_call p w again model (err e) h =
    Costs-if p w (is_permanent_error e) (pure (moved_on (some e))) (again e) (Spends-refl p w) (h e)

-- One attempt, whatever follows a failure of it.
Costs-attempt :
    (q v : ℕ) (again : Error → State Router Attempts) (e : Env) (req : Request) (model : String)
    (p : LlmProvider)
    → ((e' : Error) → Costs q v (again e'))
    → Costs (suc q) v (call_openai_compat e req p >>= after_call again model)
Costs-attempt q v again e req model p h =
    Costs-bind 1 0 q v (call_openai_compat e req p) (after_call again model) (omega arith)
      (omega arith) (λ r. Spends-of_post (call_openai_compat_lem e req p r).1)
      (λ result. Costs-after_call q v again model result h)

Costs-attempts :
    (left attempt : ℕ) (e : Env) (req : Request) (model : String) (p : LlmProvider)
    (last : Option Error)
    → Costs left (all_pauses left attempt) (attempts left attempt e req model p last)
unfolding attempts all_pauses
Costs-attempts zero attempt e req model p last = Spends-refl 0 0
Costs-attempts (suc left) attempt e req model p last =
    let again = λ (e' : Error). attempts left (suc attempt) e req model p (some e') in
    let go = call_openai_compat e (record req { model = model }) p >>= after_call again model in
    let pauses = all_pauses left (suc attempt) in
    Costs-bind 0 (pause_seconds attempt) (suc left) pauses (pause e attempt) (after_pause go)
      (omega arith) (omega arith) (Costs-pause e attempt)
      (λ ended. Costs-after_pause (suc left) pauses go ended (
        Costs-attempt left pauses again e (record req { model = model }) model p
          (λ e'. Costs-attempts left (suc attempt) e req model p (some e'))))

Costs-exhausted :
    (req : Request) (prev_model : String) (last : Option Error)
    → Costs 0 0 (exhausted req prev_model last)
unfolding exhausted
Costs-exhausted req prev_model none r = Spends-refl 0 0 r
Costs-exhausted req prev_model (some last) r = ground arith

Costs-after_attempts :
    (q v : ℕ) (next : Option Error → State Router (Outcome Response)) (ended : Attempts)
    → ((last : Option Error) → Costs q v (next last))
    → Costs q v (after_attempts next ended)
unfolding after_attempts
Costs-after_attempts q v next (returned r) h = Spends-refl q v
Costs-after_attempts q v next (moved_on last) h = h last

Costs-try_model :
    (q v : ℕ) (e : Env) (req : Request) (prev_model model : String) (last : Option Error)
    (skip : State Router (Outcome Response)) (next : Option Error → State Router (Outcome Response))
    (entry : Option LlmProvider)
    → Costs q v skip
    → ((last' : Option Error) → Costs q v (next last'))
    → Costs (3 + q) (40 + v) (try_model e req prev_model model last skip next entry)
unfolding try_model
Costs-try_model q v e req prev_model model last skip next none hs hn r =
    let h = hs r in
    record {
      posts_le = omega arith;
      waits_le = omega arith;
      same_breakers = h.same_breakers;
      same_calls = h.same_calls;
    }
Costs-try_model q v e req prev_model model last skip next (some p) hs hn r =
    let told = (notify_fallback (taking_over req prev_model model) r).1 in
    let first : Spends 0 0 r told = Costs-notify_fallback (taking_over req prev_model model) r in
    let all : Costs (3 + q) (40 + v)
        (attempts max_retries 0 e req model p last >>= after_attempts next) =
      Costs-bind 3 40 q v (attempts max_retries 0 e req model p last) (after_attempts next)
        (omega arith) (omega arith)
        (unfold all_pauses pause_seconds interval in Costs-attempts 3 0 e req model p last)
        (λ ended. Costs-after_attempts q v next ended hn) in
    Spends-trans 0 0 (3 + q) (40 + v) (omega arith) (omega arith) first (all told)

Costs-try_chain :
    (e : Env) (req : Request) (chain : List String) (prev_model : String) (last : Option Error)
    → Costs (3 * length chain) (40 * length chain) (try_chain e req chain prev_model last)
unfolding try_chain
Costs-try_chain e req [] prev_model last r = Costs-exhausted req prev_model last r
Costs-try_chain e req (model ∷ rest) prev_model last r =
    let h =
      Costs-try_model (3 * length rest) (40 * length rest) e req prev_model model last
        (try_chain e req rest prev_model last) (try_chain e req rest model)
        (lookup model llm_providers) (Costs-try_chain e req rest prev_model last)
        (λ last'. Costs-try_chain e req rest model last') r in
    record {
      posts_le = omega (arith, h.posts_le);
      waits_le = omega (arith, h.waits_le);
      same_breakers = h.same_breakers;
      same_calls = h.same_calls;
    }

-- However the chain goes, each of its models is asked at most three times with at most 40 seconds of
-- waiting between, and no breaker and no counter changes.
pub call_with_fallback-Spends :
    (e : Env) (req : Request) (chain : List String) (r : Router)
    → Spends (3 * length chain) (40 * length chain) r (call_with_fallback e req chain r).1
unfolding call_with_fallback
call_with_fallback-Spends e req chain r = Costs-try_chain e req chain req.model none r
