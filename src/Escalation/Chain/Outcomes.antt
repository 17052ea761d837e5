-- ===== src/Escalation/Chain/Outcomes.antt =====
-- What `Resolve` of internal/usecase/escalation/chain.go can return, and whom it has asked then.
use agent_claw.Base.{
  ℕ, ◌≤◌, ◌≡◌, refl, ap, sym, ◌∙◌, inl, inr, ◌⊎◌, String, Bool, true, false, List, [], ◌∷◌, ◌++◌,
  Option, none, some, arith, ltb, All, Bool-cases, len, starts_with, trim_space, to_upper,
}
use agent_claw.Domain.Models.{escalation_chain, is_human_level, model_cache, model_human}
use agent_claw.Domain.Chain.{escalation_chain-last}
use agent_claw.Domain.Types.{EscalationResult}
use agent_claw.Port.{LlmResponse, EscalatorRequest, Result, ok, err}
use agent_claw.Escalation.Types.{
  Effect, Env, Act, Trace, Reply, answered, channel_closed, timed_out, call_llm, ask_human,
  save_checkpoint, unregister_reply, delete_checkpoint, perform_if,
}
use agent_claw.Escalation.Cache
use agent_claw.Escalation.Chain.{
  Attempt, confident, declined, failed, attempt_request, judge, try_at, resolved_by,
  announce_failure, announce_answer, after_attempt, try_levels, after_reply, after_asking,
  ask_the_human, after_levels, after_check, resolve, dispatch_event,
}

-- The levels asked in a trace, newest first.
abbrev pub levels_asked : Trace → List String
levels_asked [] = []
levels_asked (call_llm x ∷ t) = x.model ∷ levels_asked t
levels_asked (ask_human _ _ _ _ _ ∷ t) = model_human ∷ levels_asked t
levels_asked (_ ∷ t) = levels_asked t

-- The levels of a chain up to this one were asked, each once and in order.
pub data Reached : List String → List String → String → List String → Type 0 where
  here :
      {before chain : List String} {level : String}
      → Reached before (level ∷ chain) level (level ∷ before)
  above :
      {before chain after : List String} {level top : String}
      → Reached (level ∷ before) chain top after
      → Reached before (level ∷ chain) top after

-- An answer of a model that `tryAt` accepts.
pub record IsConfident (answer : String) : Type 0 where
  pub raw : String
  pub trimmed : answer ≡ trim_space raw
  pub short : len answer ≤ 800
  pub not_escalated : starts_with (to_upper answer) "ESCALATE" ≡ false

-- The ways a resolution ends: with a cached answer and nobody asked; with the answer of a model
-- when the levels up to it were asked; otherwise all the models and the human were asked, and the
-- human answers, or is still awaited when the reply is given up, or there is an error.
pub data IsOutcome (chain : List String) (before : List String)
    : Result EscalationResult → Trace → Type 0 where
  cached :
      (answer : String) (t : Trace)
      → levels_asked t ≡ before
      → IsOutcome chain before (ok (resolved_by model_cache answer)) t
  by_model :
      (level answer : String) (t : Trace)
      → is_human_level level ≡ false
      → IsConfident answer
      → Reached before chain level (levels_asked t)
      → IsOutcome chain before (ok (resolved_by level answer)) t
  by_human :
      (answer : String) (t : Trace)
      → Reached before chain model_human (levels_asked t)
      → IsOutcome chain before (ok (resolved_by model_human answer)) t
  suspended :
      (msg_id : ℕ) (t : Trace)
      → Reached before chain model_human (levels_asked t)
      → IsOutcome chain before
          (ok (record { answer = ""; answered_by = ""; resolved = false; needs_human = true }))
          (unregister_reply msg_id ∷ t)
  not_answered :
      (e : String) (t : Trace)
      → Reached before chain model_human (levels_asked t)
      → IsOutcome chain before (err e) t

-- What the loop over the models leaves: at `none` all but the human were asked.
data IsClimb (chain : List String) (before : List String)
    : Option EscalationResult → Trace → Type 0 where
  to_human :
      (t : Trace)
      → Reached before chain model_human (model_human ∷ levels_asked t)
      → IsClimb chain before none t
  at_model :
      (level answer : String) (t : Trace)
      → is_human_level level ≡ false
      → IsConfident answer
      → Reached before chain level (levels_asked t)
      → IsClimb chain before (some (resolved_by level answer)) t

IsClimb-above :
    {chain before : List String} {level : String} (o : Option EscalationResult) (t : Trace)
    → IsClimb chain (level ∷ before) o t
    → IsClimb (level ∷ chain) before o t
IsClimb-above _ _ (to_human t h) = to_human t (above h)
IsClimb-above _ _ (at_model level answer t n c h) = at_model level answer t n c (above h)

abbrev Fits : Attempt → Type 0
Fits (confident answer) = IsConfident answer
Fits declined = Unit
Fits (failed e) = Unit

judge-Fits : (level : String) (r : Result LlmResponse) → Fits (judge level r)
unfolding judge
judge-Fits level (err e) = tt
judge-Fits level (ok resp) =
    let a = trim_space resp.content in
    elim (Bool-cases (starts_with (to_upper a) "ESCALATE")) [
      | inl e ↦ rw e tt
      | inr n ↦ elim (Bool-cases (ltb 800 (len a))) [
        | inl l ↦ rw (n, l) tt
        | inr s ↦
            rw (n, s)
              (record {
                raw = resp.content;
                trimmed = refl;
                short = ground arith;
                not_escalated = n;
              })
      ]
    ]

levels_asked-perform_if :
    (b : Bool) (effect : Effect) (t : Trace)
    → levels_asked (effect ∷ t) ≡ levels_asked t
    → levels_asked (perform_if b effect t).1 ≡ levels_asked t
levels_asked-perform_if true effect t h = h
levels_asked-perform_if false effect t h = refl

module _ (e : Env) (req : EscalatorRequest) where
  levels_asked-settled :
      (answer : String) (t : Trace)
      → levels_asked
          (perform_if e.has_checkpoint
            (delete_checkpoint req.task_id)
            (Cache.save e req.question answer req.agent_role t).1).1
        ≡ levels_asked t
  unfolding Cache.save
  levels_asked-settled answer t =
      levels_asked-perform_if e.has_checkpoint _ _ refl
      ∙ levels_asked-perform_if e.has_resolved _ _ refl

  levels_asked-check :
      (t : Trace) → levels_asked (Cache.check e req.question req.agent_role t).1 ≡ levels_asked t
  unfolding Cache.check
  levels_asked-check t = elim (Bool-cases e.has_resolved) [ inl h ↦ rw h refl | inr h ↦ rw h refl ]

  after_attempt-IsClimb :
      (level : String) (chain before : List String) (next : Act (Option EscalationResult))
      (a : Attempt) (t : Trace)
      → is_human_level level ≡ false
      → levels_asked t ≡ level ∷ before
      → Fits a
      → ((s : Trace)
          → levels_asked s ≡ level ∷ before
          → IsClimb chain (level ∷ before) (next s).0 (next s).1)
      → IsClimb
          (level ∷ chain)
          before
          (after_attempt e req level next a t).0
          (after_attempt e req level next a t).1
  unfolding after_attempt announce_failure announce_answer dispatch_event Cache.save
  after_attempt-IsClimb level chain before next declined t n h f k = IsClimb-above _ _ (k t h)
  after_attempt-IsClimb level chain before next (failed m) t n h f k = IsClimb-above _ _ (k _ h)
  after_attempt-IsClimb level chain before next (confident a) t n h f k =
      at_model level a _ n f (rw (levels_asked-settled a t, h) here)

  try_levels-IsClimb :
      (models before : List String) (t : Trace)
      → All (λ level. is_human_level level ≡ false) models
      → levels_asked t ≡ before
      → IsClimb
          (models ++ model_human ∷ [])
          before
          (try_levels e req (models ++ model_human ∷ []) t).0
          (try_levels e req (models ++ model_human ∷ []) t).1
  unfolding try_levels try_at attempt_request is_human_level
  try_levels-IsClimb [] before t h b = to_human t (rw b here)
  try_levels-IsClimb (level ∷ models) before t h b = rw h.0 (
      after_attempt-IsClimb level _ before _ _ _ h.0
        (ap (λ ls. level ∷ ls) (levels_asked-perform_if e.has_checkpoint _ t refl ∙ b))
        (judge-Fits level _) (λ s b'. try_levels-IsClimb models (level ∷ before) s h.1 b'))

  after_reply-IsOutcome :
      (msg_id : ℕ) (reply : Reply) (chain before : List String) (t : Trace)
      → Reached before chain model_human (levels_asked t)
      → IsOutcome chain before
          (after_reply e req msg_id reply t).0
          (after_reply e req msg_id reply t).1
  unfolding after_reply
  after_reply-IsOutcome msg_id (answered a) chain before t h =
      by_human a _ (rw (levels_asked-settled a t) h)
  after_reply-IsOutcome msg_id channel_closed chain before t h = not_answered _ t h
  after_reply-IsOutcome msg_id timed_out chain before t h = suspended msg_id t h

  after_asking-IsOutcome :
      (path : List String) (asked : Result ℕ) (chain before : List String) (t : Trace)
      → Reached before chain model_human (levels_asked t)
      → IsOutcome chain before
          (after_asking e req path asked t).0
          (after_asking e req path asked t).1
  unfolding after_asking dispatch_event
  after_asking-IsOutcome path (err e') chain before t h = not_answered _ t h
  after_asking-IsOutcome path (ok msg_id) chain before t h =
      after_reply-IsOutcome msg_id _ chain before _ h

  after_levels-IsOutcome :
      (path chain before : List String) (found : Option EscalationResult) (t : Trace)
      → IsClimb chain before found t
      → IsOutcome chain before
          (after_levels e req path found t).0
          (after_levels e req path found t).1
  unfolding after_levels ask_the_human
  after_levels-IsOutcome path chain before _ _ (to_human t h) =
      after_asking-IsOutcome path _ chain before _
        (rw (levels_asked-perform_if e.has_checkpoint (save_checkpoint _) t refl) h)
  after_levels-IsOutcome path chain before _ _ (at_model level a t n c h) = by_model level a t n c h

  after_check-IsOutcome :
      (hit : Option String) (before : List String) (t : Trace)
      → levels_asked t ≡ before
      → IsOutcome
          (escalation_chain req.agent_model)
          before
          (after_check e req hit t).0
          (after_check e req hit t).1
  unfolding after_check dispatch_event
  after_check-IsOutcome (some a) before t h = cached a _ h
  after_check-IsOutcome none before t h =
      let (models, eq, n) = escalation_chain-last req.agent_model in
      rw eq (after_levels-IsOutcome _ _ before _ _ (try_levels-IsClimb models before t n h))

  pub resolve-IsOutcome :
      (t : Trace)
      → IsOutcome
          (escalation_chain req.agent_model)
          (levels_asked t)
          (resolve e req t).0
          (resolve e req t).1
  unfolding resolve
  resolve-IsOutcome t = after_check-IsOutcome _ _ _ (levels_asked-check t)

-- The flags of a result, an error being none.
resolved_in : Result EscalationResult → Bool
resolved_in (ok r) = r.resolved
resolved_in (err m) = false

waits_in : Result EscalationResult → Bool
waits_in (ok r) = r.needs_human
waits_in (err m) = false

IsOutcome-settles :
    (chain before : List String) (o : Result EscalationResult) (t : Trace) (r : EscalationResult)
    → IsOutcome chain before o t
    → o ≡ ok r
    → (r.resolved ≡ true) ⊎ (r.needs_human ≡ true)
unfolding resolved_in waits_in
IsOutcome-settles chain before _ _ r (cached a t h) e = inl (ap (λ x. resolved_in x) (sym e))
IsOutcome-settles chain before _ _ r (by_model level a t n c h) e =
    inl (ap (λ x. resolved_in x) (sym e))
IsOutcome-settles chain before _ _ r (by_human a t h) e = inl (ap (λ x. resolved_in x) (sym e))
IsOutcome-settles chain before _ _ r (suspended id t h) e = inr (ap (λ x. waits_in x) (sym e))
IsOutcome-settles chain before _ _ r (not_answered m t h) e = absurd (no_result e)
  where
    no_result : err m ≡ ok r → ⊥
    no_result q = cc

-- A resolution without an error is resolved or needs the human.
pub resolve-settles :
    (e : Env) (req : EscalatorRequest) (t : Trace) (r : EscalationResult)
    → (resolve e req t).0 ≡ ok r
    → (r.resolved ≡ true) ⊎ (r.needs_human ≡ true)
resolve-settles e req t r h = IsOutcome-settles _ _ _ _ r (resolve-IsOutcome e req t) h
