-- ===== src/Tests/Calls.antt =====
-- Runs of `Call` of internal/llm/router.go, with networks that always answer the same.
use agent_claw.Base.{
  ◌≡◌, ◌≢◌, refl, ℕ, ◌+◌, ◌≤◌, String, true, false, List, [], ◌∷◌, none, some, lookup, length,
  arith,
}
use agent_claw.Base.Float.{of_nat}
use agent_claw.Llm.Errors.{Error, text, http_status, truncate_error_body, is_permanent_error}
use agent_claw.Llm.Provider.{LlmProvider, llm_providers, provider_for_model}
use agent_claw.Llm.Breaker.{circuit_open, circuit_half_open, circuit_closed, allow, get_breaker}
use agent_claw.Llm.Http.{call_openai_compat}
use agent_claw.Llm.Pricing.{calc_cost}
use agent_claw.Base.Int64.{add64}
use agent_claw.Llm.Types.{
  Request, Response, standard, ok, err, panic, answered, value, malformed, Env, Router,
}
use agent_claw.Llm.Fallback.Effort.{posts, waited}
use agent_claw.Llm.Router.{call, after_allow, dispatch, serve, settle}
use agent_claw.Llm.Router.Calls.{call_bounded}
use agent_claw.Llm.Router.Settling.{call_success, breaker_of, count_of}
use agent_claw.Llm.Router.Wedged.{call_all, permanent_probe_wedges}

-- The network answers every request with this status.
abbrev network : ℕ → Env
network status = record {
  getenv = λ key. "secret";
  reply = λ t. answered status "{}";
  decode_compat = λ body. value (record { choices = "hello" ∷ []; prompt = 3; completion = 1 });
  decode_anthropic = λ body. malformed "not used";
  cancelled = λ t. none;
  now = λ t. 1000 + length t;
  show_duration = λ d. "1m0s";
}

abbrev ask : Request
ask = record {
  model = "glm5";
  system = "";
  messages = record { role = "user"; content = "hi" } ∷ [];
  max_tokens = 100;
  task_id = "t1";
  cache_control = none;
  batch_mode = false;
  thinking = none;
}

abbrev fresh : Router
fresh = record { env = none; breakers = []; has_notifier = true; calls = []; trace = [] }

call_bounded_example :
    let (result, r') = call (network 503) [] ask fresh in
    (posts r'.trace ≤ posts fresh.trace + 7)
    × (waited r'.trace ≤ waited fresh.trace + 80)
    × (result ≢ panic)
call_bounded_example = call_bounded (network 503) [] ask fresh

abbrev two_models : List String
two_models = "glm5" ∷ "kimi" ∷ []

abbrev glm5 : LlmProvider
glm5 = record {
  name = "zhipu";
  base_url = "https://api.z.ai/api/coding/paas/v4";
  env_key = "GLM_API_KEY";
  model_id = "glm-5";
  is_anthropic = false;
}

glm5_known : lookup "glm5" llm_providers ≡ some glm5
unfolding lookup llm_providers
glm5_known = refl

-- A router whose breaker for the provider is open, and was opened long ago.
abbrev tripped : Router
tripped = record fresh {
  breakers =
      (
        "zhipu",
        record {
          atomic_state = circuit_open;
          failures = 5;
          threshold = 5;
          cooldown = 10;
          opened_at = 100;
          last_err = some (text "EOF");
        },
      )
      ∷ [];
}

abbrev said : Response
said = record {
  content = "hello";
  thinking_content = "";
  input_tokens = 3;
  output_tokens = 1;
  thinking_tokens = 0;
  cache_tokens = 0;
  cost_usd = of_nat 0;
  cost_mode = standard;
  model_used = "glm5";
  duration_ms = 0;
}

answered_probe : (call (network 200) [] ask tripped).0 ≡ ok said
unfolding call after_allow dispatch serve settle allow get_breaker lookup provider_for_model
    llm_providers call_openai_compat calc_cost
answered_probe = refl

call_success_example :
    let p = provider_for_model ask.model in
    let r' = (call (network 200) [] ask tripped).1 in
    ((breaker_of p r').atomic_state ≡ circuit_closed)
    × ((breaker_of p r').failures ≡ 0)
    × ((breaker_of p r').last_err ≡ none)
    × (count_of p r' ≡ add64 (count_of p tripped) 1)
    × (breaker_of "anthropic" r' ≡ breaker_of "anthropic" tripped)
    × (count_of "anthropic" r' ≡ count_of "anthropic" tripped)
unfolding provider_for_model llm_providers lookup
call_success_example =
    call_success (network 200) [] ask tripped "anthropic" said answered_probe refl

abbrev not_found : Error
not_found = http_status (record { status_code = 404; provider = "zhipu"; body = "{}" })

refused_probe : (call (network 404) [] ask tripped).0 ≡ err not_found
unfolding call after_allow dispatch serve settle allow get_breaker lookup provider_for_model
    llm_providers call_openai_compat calc_cost is_permanent_error truncate_error_body
refused_probe = refl

permanent_probe_wedges_example :
    let r' = (call (network 404) [] ask tripped).1 in
    ((breaker_of (provider_for_model ask.model) r').atomic_state ≡ circuit_half_open)
    × ((call_all (network 404) [] (ask ∷ ask ∷ []) r').trace ≡ r'.trace)
unfolding provider_for_model llm_providers lookup is_permanent_error
permanent_probe_wedges_example =
    permanent_probe_wedges (network 404) [] ask tripped not_found (ask ∷ ask ∷ []) refl
      (omega arith) refused_probe refl (refl, (refl, tt))
