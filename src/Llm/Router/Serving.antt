-- ===== src/Llm/Router/Serving.antt =====
-- One request at its provider with the fallback chain behind it (internal/llm/router.go).
use agent_claw.Base.{
  ℕ, ◌*◌, ◌≤◌, ◌≡◌, ◌≢◌, refl, ◌⊎◌, inl, inr, String, List, [], ◌∷◌, some, arith, lookup,
  Bool-cases, length,
}
use agent_claw.Llm.Errors.{Error, is_permanent_error}
use agent_claw.Llm.Provider.{LlmProvider, llm_providers, fallback_chain_from}
use agent_claw.Llm.Types.{Request, Response, Outcome, ok, err, panic, Env, Router}
use agent_claw.Llm.Http.{call_openai_compat, call_anthropic}
use agent_claw.Llm.Http.Posts.{call_openai_compat_lem, call_anthropic_lem}
use agent_claw.Llm.Fallback.{call_with_fallback}
use agent_claw.Llm.Fallback.Effort.{
  Spends, call_with_fallback-Spends, Spends-of_post, Spends-refl, Spends-trans,
}
use agent_claw.Llm.Fallback.Panics.{call_with_fallback-ne-panic}
use agent_claw.Llm.Router.{serve, fall_back, with_chain}

-- The chains that there are.
fallback_chain-cases :
    (model : String)
    → (fallback_chain_from model ≡ [])
      ⊎ (fallback_chain_from model ≡ "kimi" ∷ "glm5" ∷ [])
      ⊎ (fallback_chain_from model ≡ "glm5" ∷ [])
unfolding fallback_chain_from
fallback_chain-cases model = ground arith

-- What serving a request may do: at most so much, and no panic.
pub record IsServed (posted seconds : ℕ) (r : Router) (result : Outcome Response × Router)
    : Type 0 where
  pub spends : Spends posted seconds r result.1
  pub no_panic : result.0 ≢ panic

module _ (e : Env) (req : Request) where
  chain-IsServed :
      (model : String) (rest : List String) (p : LlmProvider) (r : Router)
      → length rest ≤ 1
      → lookup model llm_providers ≡ some p
      → IsServed 6 80 r (call_with_fallback e req (model ∷ rest) r)
  chain-IsServed model rest p r short known = record {
    spends =
        Spends-trans (3 * length (model ∷ rest)) (40 * length (model ∷ rest)) 0 0 (omega arith)
          (omega arith) (call_with_fallback-Spends e req (model ∷ rest) r)
          (Spends-refl 0 0 (call_with_fallback e req (model ∷ rest) r).1);
    no_panic = call_with_fallback-ne-panic e req model rest p r known;
  }

  with_chain-IsServed :
      (e' : Error) (r : Router)
      → IsServed 6 80 r (with_chain e req e' (fallback_chain_from req.model) r)
  unfolding with_chain llm_providers lookup
  with_chain-IsServed e' r = elim (fallback_chain-cases req.model) [
    | inl h ↦ rw h (record { spends = Spends-refl 6 80 r; no_panic = λ q. cc })
    | inr (inl h) ↦ rw h (chain-IsServed "kimi" ("glm5" ∷ []) _ r (omega arith) refl)
    | inr (inr h) ↦ rw h (chain-IsServed "glm5" [] _ r (omega arith) refl)
  ]

  fall_back-IsServed :
      (result : Outcome Response) (r : Router)
      → result ≢ panic
      → IsServed 6 80 r (fall_back e req result r)
  unfolding fall_back
  fall_back-IsServed (ok resp) r h = record { spends = Spends-refl 6 80 r; no_panic = λ q. cc }
  fall_back-IsServed panic r h = absurd (h refl)
  fall_back-IsServed (err e') r h = elim (Bool-cases (is_permanent_error e')) [
    | inl p ↦ rw p (record { spends = Spends-refl 6 80 r; no_panic = λ q. cc })
    | inr p ↦ rw p (with_chain-IsServed e' r)
  ]

  -- Serving a request posts seven times at most and waits 80 seconds at most in between.
  pub serve-IsServed : (p : LlmProvider) (r : Router) → IsServed 7 80 r (serve e req p r)
  unfolding serve
  serve-IsServed p r = elim (Bool-cases p.is_anthropic) [
    | inl a ↦
        let h = call_anthropic_lem e req p r in
        simp a (record {
          spends =
              Spends-trans 1 0 0 0 (omega arith) (omega arith) (Spends-of_post h.1)
                (Spends-refl 0 0 (call_anthropic e req p r).1);
          no_panic = h.0;
        })
    | inr a ↦
        let h = call_openai_compat_lem e req p r in
        let k =
          fall_back-IsServed (call_openai_compat e req p r).0 (call_openai_compat e req p r).1
            h.0 in
        simp a (record {
          spends = Spends-trans 1 0 6 80 (omega arith) (omega arith) (Spends-of_post h.1) k.spends;
          no_panic = k.no_panic;
        })
  ]
