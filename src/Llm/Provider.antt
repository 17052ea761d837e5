-- ===== src/Llm/Provider.antt =====
-- internal/llm/provider.go: the providers, the fallback chain and the retry policy.
use agent_claw.Base.{
  ℕ, String, Bool, true, false, not, List, [], ◌∷◌, none, some, ◌==◌, Dict, lookup, if◌then◌else◌,
}

-- `llmProvider`.
pub record LlmProvider : Type 0 where
  pub name : String
  pub base_url : String
  pub env_key : String
  pub model_id : String
  pub is_anthropic : Bool

abbrev provider : String → String → String → String → Bool → LlmProvider
provider name base_url env_key model_id is_anthropic = record {
  name = name;
  base_url = base_url;
  env_key = env_key;
  model_id = model_id;
  is_anthropic = is_anthropic;
}

abbrev pub anthropic_base_url : String
anthropic_base_url = "https://api.anthropic.com/v1/messages"

abbrev pub minimax_base_url : String
minimax_base_url = "https://api.minimax.io/v1/text/chatcompletion_v2"

abbrev pub glm_base_url : String
glm_base_url = "https://api.z.ai/api/coding/paas/v4"

abbrev pub kimi_base_url : String
kimi_base_url = "https://api.moonshot.ai/v1/chat/completions"

-- `LLMProviders`.
unfoldable pub llm_providers : Dict LlmProvider
llm_providers =
    ("opus", provider "anthropic" anthropic_base_url "ANTHROPIC_API_KEY" "claude-opus-4-6" true)
    ∷ (
      "sonnet",
      provider "anthropic" anthropic_base_url "ANTHROPIC_API_KEY" "claude-sonnet-4-6" true,
    )
    ∷ (
      "haiku",
      provider "anthropic" anthropic_base_url "ANTHROPIC_API_KEY" "claude-haiku-4-5-20251001" true,
    )
    ∷ ("minimax", provider "minimax" minimax_base_url "MINIMAX_API_KEY" "MiniMax-M2.5" false)
    ∷ ("kimi", provider "moonshot" kimi_base_url "KIMI_API_KEY" "kimi-k2.5" false)
    ∷ ("glm5", provider "zhipu" glm_base_url "GLM_API_KEY" "glm-5" false)
    ∷ ("glm-flash", provider "zhipu" glm_base_url "GLM_API_KEY" "glm-4.5-flash" false)
    ∷ []

-- `IsOpenAICompatModel`.
unfoldable pub is_openai_compat_model : String → Bool
is_openai_compat_model model = elim (lookup model llm_providers) [
  | none ↦ false
  | some m ↦ not m.is_anthropic
]

-- `IsAnthropicModel`.
unfoldable pub is_anthropic_model : String → Bool
is_anthropic_model model = elim (lookup model llm_providers) [
  | none ↦ false
  | some m ↦ m.is_anthropic
]

-- `providerForModel` of internal/llm/router.go.
unfoldable pub provider_for_model : String → String
provider_for_model model = elim (lookup model llm_providers) [ none ↦ model | some m ↦ m.name ]

-- `WorkerFallbackChain`.
abbrev pub worker_fallback_chain : List String
worker_fallback_chain = "minimax" ∷ "kimi" ∷ "glm5" ∷ []

-- The loop of `FallbackChainFrom`: an entry that is the last one does not return.
after : String → List String → List String
after model [] = []
after model (m ∷ []) = []
after model (m ∷ next ∷ rest) =
    let go = after model (next ∷ rest) in if m == model then next ∷ rest else go

-- `FallbackChainFrom`.
unfoldable pub fallback_chain_from : String → List String
unfolding after
fallback_chain_from model = after model worker_fallback_chain

-- `RetryIntervals`, in seconds.
abbrev pub retry_intervals : List ℕ
retry_intervals = 10 ∷ 30 ∷ 60 ∷ []

-- `MaxRetries`.
abbrev pub max_retries : ℕ
max_retries = 3
