-- ===== src/Port.antt =====
-- The request and response types of internal/port that the use cases exchange with their
-- collaborators.
use agent_claw.Base.{ℕ, String, Bool, List, Option}
use agent_claw.Base.Float.{Float64}

-- `LLMMessage`.
pub record LlmMessage : Type 0 where
  pub role : String
  pub content : String

-- `LLMCacheControl`.
pub record LlmCacheControl : Type 0 where
  pub cache_system : Bool
  pub ttl : String

-- `ThinkingConfig`.
pub record ThinkingConfig : Type 0 where
  pub enabled : Bool
  pub budget_tokens : ℕ

-- `LLMRequest`.
pub record LlmRequest : Type 0 where
  pub model : String
  pub system : String
  pub messages : List LlmMessage
  pub max_tokens : ℕ
  pub task_id : String
  pub cache_control : Option LlmCacheControl
  pub batch_mode : Bool
  pub thinking : Option ThinkingConfig

-- `LLMResponse`.
pub record LlmResponse : Type 0 where
  pub content : String
  pub thinking_content : String
  pub input_tokens : ℕ
  pub output_tokens : ℕ
  pub thinking_tokens : ℕ
  pub cache_tokens : ℕ
  pub cost_usd : Float64
  pub cost_mode : String
  pub duration_ms : ℕ
  pub model_used : String

-- `EscalatorRequest`.
pub record EscalatorRequest : Type 0 where
  pub question : String
  pub task_context : String
  pub agent_model : String
  pub agent_role : String
  pub task_id : String
  pub question_id : String

-- What a Go function with results `(T, error)` returns; an error is its text.
pub data Result (A : Type 0) : Type 0 where
  ok : A → Result A
  err : String → Result A
