-- ===== src/Llm/Http.antt =====
-- internal/llm/openai_compat.go, internal/llm/anthropic.go and `getenv` of internal/llm/router.go.
pub mod Posts
use agent_claw.Base.{
  ℕ, ◌+◌, ◌/◌, String, not, ◌&&◌, ◌||◌, List, [], ◌∷◌, Option, none, some, lookup, State, pure,
  gets, modify, ◌>>=◌, ◌>>◌, ◌==◌, ◌⧺◌, len, leb, ltb, eqb, if◌then◌else◌, join,
}
use agent_claw.Base.Float.{of_nat}
use agent_claw.Base.Int64.{add64, is_pos64}
use agent_claw.Llm.Errors.{http_status, text, wrap, truncate_error_body}
use agent_claw.Llm.Provider.{LlmProvider}
use agent_claw.Llm.Types.{
  Message, CacheControl, ThinkingConfig, Request, Response, CostMode, standard, cache_write,
  cache_hit, Outcome, ok, err, SystemField, no_system, plain_system, cached_system, HttpRequest,
  HttpReply, transport_error, read_error, answered, CompatBody, Block, AnthropicBody, post, Decoded,
  value, malformed, Env, Router,
}

from_os : Env → String → Option String → String
from_os e key none = e.getenv key
from_os e key (some v) = if v == "" then e.getenv key else v

-- `getenv`.
unfoldable pub getenv : Env → Router → String → String
unfolding from_os
getenv e r key = elim r.env [ none ↦ e.getenv key | some m ↦ from_os e key (lookup key m) ]

-- `client.Do` with the read of the body: the request is recorded, and the environment answers.
send : Env → HttpRequest → State Router HttpReply
send e request = do
  modify (λ (r : Router). record r { trace = post request ∷ r.trace })
  gets (λ r. e.reply r.trace)

system_message : String → List Message → List Message
system_message system msgs =
    if system == "" then msgs else record { role = "system"; content = system } ∷ msgs

first_choice : List String → String
first_choice [] = ""
first_choice (c ∷ rest) = c

-- The end of `callOpenAICompat`, from the decoded body.
compat_response : Request → CompatBody → Response
unfolding first_choice
compat_response req out = record {
  content = first_choice out.choices;
  thinking_content = "";
  input_tokens = out.prompt;
  output_tokens = out.completion;
  thinking_tokens = 0;
  cache_tokens = 0;
  cost_usd = of_nat 0;
  cost_mode = standard;
  model_used = req.model;
  duration_ms = 0;
}

-- What both calls make of the reply, but for the decoding.
module _ {A : Type 0} where
  decoded : String → (A → Response) → Decoded A → Outcome Response
  decoded name build (value out) = ok (build out)
  decoded name build (malformed s) = err (wrap ("parse " ⧺ name ⧺ " response") (text s))

  read_reply : String → (String → Decoded A) → (A → Response) → HttpReply → Outcome Response
  unfolding decoded
  read_reply name decode build (transport_error s) = err (wrap (name ⧺ " HTTP") (text s))
  read_reply name decode build (read_error s) = err (wrap ("read " ⧺ name ⧺ " response") (text s))
  read_reply name decode build (answered status raw) =
      if eqb status 200
      then decoded name build (decode raw)
      else err (
          http_status
            (record { status_code = status; provider = name; body = truncate_error_body raw }))

-- The request that `callOpenAICompat` builds.
compat_request : Request → LlmProvider → String → HttpRequest
unfolding system_message
compat_request req p api_key = record {
  url = p.base_url;
  api_key = api_key;
  model = p.model_id;
  max_tokens = req.max_tokens;
  messages = system_message req.system req.messages;
  thinking = none;
  system = no_system;
}

-- `callOpenAICompat`. The marshalling of these bodies and the building of the request cannot fail.
unfoldable pub call_openai_compat : Env → Request → LlmProvider → State Router (Outcome Response)
unfolding getenv send compat_request compat_response read_reply
call_openai_compat e req p = do
  api_key ← gets (λ r. getenv e r p.env_key)
  if api_key == "" then pure (err (text (p.env_key ⧺ " is not set"))) else do
    reply ← send e (compat_request req p api_key)
    pure (read_reply p.name e.decode_compat (compat_response req) reply)

-- The budget where thinking is enabled with one.
thinking_budget : Option ThinkingConfig → Option ℕ
thinking_budget none = none
thinking_budget (some t) = if t.enabled && ltb 0 t.budget_tokens then some t.budget_tokens else none

-- `max_tokens` must exceed the thinking budget.
raise_max_tokens : ℕ → Option ℕ → ℕ
raise_max_tokens max_tokens none = max_tokens
raise_max_tokens max_tokens (some budget) =
    if leb max_tokens budget then budget + max_tokens else max_tokens

cached : String → Option CacheControl → SystemField
cached system none = plain_system system
cached system (some c) =
    if c.cache_system
    then cached_system system (if c.ttl == "" then "ephemeral" else c.ttl)
    else plain_system system

system_field : Request → SystemField
unfolding cached
system_field req = if req.system == "" then no_system else cached req.system req.cache_control

-- The texts of the blocks of each kind, empty ones left out.
thinking_parts : List Block → List String
thinking_parts [] = []
thinking_parts (b ∷ rest) =
    let others = thinking_parts rest in
    if b.type == "thinking" && not (b.thinking == "") then b.thinking ∷ others else others

content_parts : List Block → List String
content_parts [] = []
content_parts (b ∷ rest) =
    let others = content_parts rest in
    if (b.type == "text" || b.type == "") && not (b.text == "") then b.text ∷ others else others

-- How an Anthropic answer is priced.
cost_mode_of : AnthropicBody → CostMode
cost_mode_of out =
    if is_pos64 (add64 out.cache_read out.cache_creation)
    then (if ltb out.cache_creation out.cache_read then cache_hit else cache_write)
    else standard

-- The end of `callAnthropic`, from the decoded body.
anthropic_response : Request → AnthropicBody → Response
unfolding thinking_parts content_parts cost_mode_of
anthropic_response req out =
    let thinking_content = join "\n" (thinking_parts out.content) in
    record {
      content = join "\n" (content_parts out.content);
      thinking_content = thinking_content;
      input_tokens = out.input;
      output_tokens = out.output;
      thinking_tokens = len thinking_content / 4;
      cache_tokens = add64 out.cache_read out.cache_creation;
      cost_usd = of_nat 0;
      cost_mode = cost_mode_of out;
      model_used = req.model;
      duration_ms = 0;
    }

-- The request that `callAnthropic` builds.
anthropic_request : Request → LlmProvider → String → HttpRequest
unfolding thinking_budget raise_max_tokens system_field
anthropic_request req p api_key = record {
  url = p.base_url;
  api_key = api_key;
  model = p.model_id;
  max_tokens = raise_max_tokens req.max_tokens (thinking_budget req.thinking);
  messages = req.messages;
  thinking = thinking_budget req.thinking;
  system = system_field req;
}

-- `callAnthropic`.
unfoldable pub call_anthropic : Env → Request → LlmProvider → State Router (Outcome Response)
unfolding getenv send anthropic_request anthropic_response read_reply
call_anthropic e req p = do
  api_key ← gets (λ r. getenv e r p.env_key)
  if api_key == "" then pure (err (text (p.env_key ⧺ " is not set"))) else do
    reply ← send e (anthropic_request req p api_key)
    pure (read_reply "anthropic" e.decode_anthropic (anthropic_response req) reply)
