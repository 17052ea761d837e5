-- ===== src/Llm/Http/Posts.antt =====
-- What one call of a provider (internal/llm/openai_compat.go, internal/llm/anthropic.go) changes.
use agent_claw.Base.{◌≡◌, ◌≢◌, refl, ◌⊎◌, inl, inr, String, ◌==◌, ◌∷◌, arith, Bool-cases}
use agent_claw.Llm.Provider.{LlmProvider}
use agent_claw.Llm.Types.{
  Request, Response, panic, HttpRequest, HttpReply, transport_error, read_error, answered, Decoded,
  post, Env, Router,
}
use agent_claw.Llm.Http.{
  read_reply, getenv, compat_request, compat_response, anthropic_request, anthropic_response,
  call_openai_compat, call_anthropic,
}

-- The router is as it was, or it has posted one request.
abbrev pub PostsAtMostOne : Router → Router → Type 0
PostsAtMostOne r r' = (r' ≡ r) ⊎ ((x : HttpRequest) × (r' ≡ record r { trace = post x ∷ r.trace }))

module _ {A : Type 0} where
  read_reply-ne-panic :
      (name : String) (decode : String → Decoded A) (build : A → Response) (reply : HttpReply)
      → read_reply name decode build reply ≢ panic
  unfolding read_reply
  read_reply-ne-panic name decode build (transport_error s) = λ h. cc
  read_reply-ne-panic name decode build (read_error s) = λ h. cc
  read_reply-ne-panic name decode build (answered status raw) = λ h. ground arith

pub call_openai_compat_lem :
    (e : Env) (req : Request) (p : LlmProvider) (r : Router)
    → let (result, r') = call_openai_compat e req p r in (result ≢ panic) × PostsAtMostOne r r'
unfolding call_openai_compat
call_openai_compat_lem e req p r = elim (Bool-cases (getenv e r p.env_key == "")) [
  | inl h ↦ rw h ((λ q. cc), inl refl)
  | inr h ↦ rw h (
    read_reply-ne-panic p.name e.decode_compat (compat_response req)
        (e.reply (post (compat_request req p (getenv e r p.env_key)) ∷ r.trace)),
    inr (compat_request req p (getenv e r p.env_key), refl),
  )
]

pub call_anthropic_lem :
    (e : Env) (req : Request) (p : LlmProvider) (r : Router)
    → let (result, r') = call_anthropic e req p r in (result ≢ panic) × PostsAtMostOne r r'
unfolding call_anthropic
call_anthropic_lem e req p r = elim (Bool-cases (getenv e r p.env_key == "")) [
  | inl h ↦ rw h ((λ q. cc), inl refl)
  | inr h ↦ rw h (
    read_reply-ne-panic "anthropic" e.decode_anthropic (anthropic_response req)
        (e.reply (post (anthropic_request req p (getenv e r p.env_key)) ∷ r.trace)),
    inr (anthropic_request req p (getenv e r p.env_key), refl),
  )
]
