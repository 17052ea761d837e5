-- ===== src/Llm/Types.antt =====
-- internal/llm/types.go, and what the package asks of the network, the clock and the environment.
-- The environment answers each call as a function of the effects before it.
use agent_claw.Base.{ℕ, String, Bool, Option, List, Dict}
use agent_claw.Base.Float.{Float64, Decimal}
use agent_claw.Llm.Errors.{Error}
use agent_claw.Llm.Breaker.{Breaker}

-- `Message`.
pub record Message : Type 0 where
  pub role : String
  pub content : String

-- `CacheControl`.
pub record CacheControl : Type 0 where
  pub cache_system : Bool
  pub ttl : String

-- `ThinkingConfig`; the budget is not negative.
pub record ThinkingConfig : Type 0 where
  pub enabled : Bool
  pub budget_tokens : ℕ

-- `Request`.
pub record Request : Type 0 where
  pub model : String
  pub system : String
  pub messages : List Message
  pub max_tokens : ℕ
  pub task_id : String
  pub cache_control : Option CacheControl
  pub batch_mode : Bool
  pub thinking : Option ThinkingConfig

-- `CostMode` of internal/llm/pricing.go.
pub data CostMode : Type 0 where
  standard cache_write cache_hit batch : CostMode

-- `Response`.
pub record Response : Type 0 where
  pub content : String
  pub thinking_content : String
  pub input_tokens : ℕ
  pub output_tokens : ℕ
  pub thinking_tokens : ℕ
  pub cache_tokens : ℕ
  pub cost_usd : Float64
  pub cost_mode : CostMode
  pub model_used : String
  pub duration_ms : ℕ

-- `FallbackEvent`.
pub record FallbackEvent : Type 0 where
  pub task_id : String
  pub from_model : String
  pub to_model : String
  pub err : String
  pub exhausted : Bool

-- What a Go function with results `(*T, error)` does: it returns one of the two, or it panics.
pub data Outcome (A : Type 0) : Type 0 where
  ok : A → Outcome A
  err : Error → Outcome A
  panic : Outcome A

-- The `system` field of an Anthropic request body.
pub data SystemField : Type 0 where
  no_system : SystemField
  plain_system : String → SystemField
  cached_system : String → String → SystemField

-- A POST request: the URL, the key of the authorisation header and the fields of the JSON body.
pub record HttpRequest : Type 0 where
  pub url : String
  pub api_key : String
  pub model : String
  pub max_tokens : ℕ
  pub messages : List Message
  pub thinking : Option ℕ
  pub system : SystemField

-- What `client.Do` and the read of the body give.
pub data HttpReply : Type 0 where
  transport_error : String → HttpReply
  read_error : String → HttpReply
  answered : ℕ → String → HttpReply

-- The fields that are decoded from an OpenAI-compatible body.
pub record CompatBody : Type 0 where
  pub choices : List String
  pub prompt : ℕ
  pub completion : ℕ

-- A content block, and the fields that are decoded from an Anthropic body.
pub record Block : Type 0 where
  pub type : String
  pub text : String
  pub thinking : String

pub record AnthropicBody : Type 0 where
  pub content : List Block
  pub input : ℕ
  pub output : ℕ
  pub cache_creation : ℕ
  pub cache_read : ℕ

-- What the package does that can be seen from outside, newest first in a trace.
pub data Effect : Type 0 where
  post : HttpRequest → Effect
  notify : FallbackEvent → Effect
  wait : ℕ → Effect

abbrev pub Trace : Type 0
Trace = List Effect

-- `json.Unmarshal`: the value or the text of its error.
pub data Decoded (A : Type 0) : Type 0 where
  value : A → Decoded A
  malformed : String → Decoded A

pub record Env : Type 0 where
  pub getenv : String → String
  pub reply : Trace → HttpReply
  pub decode_compat : String → Decoded CompatBody
  pub decode_anthropic : String → Decoded AnthropicBody
  pub cancelled : Trace → Option Error
  pub now : Trace → ℕ
  pub show_duration : ℕ → String

-- `pricing` of internal/llm/pricing.go.
pub record Pricing : Type 0 where
  pub input_per_1m : Decimal
  pub output_per_1m : Decimal
  pub cache_write_5m_per_1m : Decimal
  pub cache_write_1h_per_1m : Decimal
  pub cache_hit_per_1m : Decimal
  pub batch_input_per_1m : Decimal
  pub batch_output_per_1m : Decimal

-- `Router`, with the effects so far. The transport is the environment's, and a router without a
-- fallback callback has `has_notifier` false.
pub record Router : Type 0 where
  pub env : Option (Dict String)
  pub breakers : Dict Breaker
  pub has_notifier : Bool
  pub calls : Dict ℕ
  pub trace : Trace
