-- ===== src/Domain/Chain.antt =====
-- The escalation chain of internal/domain/model.go: its loop ends, and it climbs to the human.
use agent_claw.Base.{
  ℕ, suc, ◌==◌, ◌≤◌, ◌<◌, ◌≡◌, refl, ◌⊎◌, inl, inr, String, true, false, List, [], ◌∷◌, ◌++◌, some,
  arith, All, leb, eqb, if◌then◌else◌, Bool-cases,
}
use agent_claw.Domain.Models.{
  tier_for, tier_worker, tier_smart, tier_expert, can_escalate, is_human_level, escalation_chain,
  climb, next_escalation_level, escalation_target, model_human, model_sonnet, model_opus,
}

next-cases :
    (level : String)
    → (next_escalation_level level ≡ model_opus) ⊎ (next_escalation_level level ≡ model_human)
unfolding next_escalation_level
next-cases level = ground arith

-- From any level the next level but one is the human.
next-next : (level : String) → next_escalation_level (next_escalation_level level) ≡ model_human
next-next level = elim (next-cases level) [
  | inl e ↦ rw e (unfold next_escalation_level in refl)
  | inr e ↦ rw e (unfold next_escalation_level in refl)
]

-- Whatever level and partial chain the loop of `EscalationChain` starts from, three rounds of fuel
-- or more let it end.
pub climb_total :
    (fuel : ℕ) (level : String) (chain : List String)
    → (c : List String) × (climb (suc (suc (suc fuel))) level chain ≡ some c)
unfolding climb
climb_total fuel level chain = elim (Bool-cases (level == model_human)) [
  | inl e ↦ (chain, rw e)
  | inr e ↦ elim (Bool-cases (next_escalation_level level == model_human)) [
    | inl f ↦ (chain ++ level ∷ [], rw (e, f))
    | inr f ↦
        ((chain ++ level ∷ []) ++ next_escalation_level level ∷ [], rw (e, f, next-next level))
  ]
]

tier-cases :
    (model : String)
    → (tier_for model ≡ 10)
      ⊎ (tier_for model ≡ 20)
      ⊎ (tier_for model ≡ 30)
      ⊎ (tier_for model ≡ 40)
      ⊎ (tier_for model ≡ 50)
unfolding tier_for
tier-cases model = ground arith

-- The chain as a function of the tier.
ladder : ℕ → List String
ladder tier =
    if leb tier tier_worker
    then model_sonnet ∷ model_opus ∷ model_human ∷ []
    else if eqb tier tier_smart
    then model_opus ∷ model_human ∷ []
    else model_human ∷ []

target-cases :
    (model : String)
    → (leb (tier_for model) tier_worker ≡ true) × (escalation_target model ≡ model_sonnet)
      ⊎ (tier_for model ≡ tier_smart) × (escalation_target model ≡ model_opus)
      ⊎ (tier_expert ≤ tier_for model) × (escalation_target model ≡ model_human)
unfolding escalation_target
target-cases model = ground (arith, tier-cases model)

escalation_chain-eq-ladder : (model : String) → escalation_chain model ≡ ladder (tier_for model)
unfolding escalation_chain next_escalation_level ladder
escalation_chain-eq-ladder model = elim (target-cases model) [
  | inl (low, t) ↦ rw (t, escalation_chain) (rw low)
  | inr (inl (e, t)) ↦ rw (t, escalation_chain) (rw e)
  | inr (inr (h, t)) ↦ rw (t, escalation_chain) (ground arith)
]

-- Each model of the list has a higher tier than the one before it, the first a higher one than `t`.
abbrev pub Ascends : ℕ → List String → Type 0
Ascends t [] = Unit
Ascends t (m ∷ ms) = (t < tier_for m) × Ascends (tier_for m) ms

ladder-Ascends :
    (tier : ℕ)
    → (tier ≡ 10) ⊎ (tier ≡ 20) ⊎ (tier ≡ 30) ⊎ (tier ≡ 40) ⊎ (tier ≡ 50)
    → tier < 50
    → Ascends tier (ladder tier)
unfolding ladder tier_for
ladder-Ascends tier (inl e) h = rw e (omega arith)
ladder-Ascends tier (inr (inl e)) h = rw e (omega arith)
ladder-Ascends tier (inr (inr (inl e))) h = rw e (omega arith)
ladder-Ascends tier (inr (inr (inr (inl e)))) h = rw e (omega arith)
ladder-Ascends tier (inr (inr (inr (inr e)))) h = absurd (omega arith)

ladder-last :
    (tier : ℕ)
    → (body : List String) × (ladder tier ≡ body ++ model_human ∷ [])
      × All (λ level. is_human_level level ≡ false) body
unfolding ladder is_human_level
ladder-last tier = elim (Bool-cases (leb tier tier_worker)) [
  | inl low ↦ (model_sonnet ∷ model_opus ∷ [], rw low, (refl, (refl, tt)))
  | inr high ↦ elim (Bool-cases (eqb tier tier_smart)) [
    | inl smart ↦ (model_opus ∷ [], rw (high, smart), (refl, tt))
    | inr other ↦ ([], rw (high, other), tt)
  ]
]

-- Up the chain of a model that can escalate every entry has a higher tier than the one before it,
-- and the first has a higher tier than the model.
pub escalation_chain-Ascends :
    (model : String) → can_escalate model ≡ true → Ascends (tier_for model) (escalation_chain model)
unfolding can_escalate
escalation_chain-Ascends model h =
    rw (escalation_chain-eq-ladder model)
      (ladder-Ascends (tier_for model) (tier-cases model) (ground arith))

-- The human is the last entry of the chain and no other.
pub escalation_chain-last :
    (model : String)
    → (body : List String) × (escalation_chain model ≡ body ++ model_human ∷ [])
      × All (λ level. is_human_level level ≡ false) body
escalation_chain-last model = rw (escalation_chain-eq-ladder model) (ladder-last (tier_for model))
