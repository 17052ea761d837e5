-- ===== src/Escalation/Chain/Checkpoints.antt =====
-- The checkpoint that `Resolve` of internal/usecase/escalation/chain.go leaves for the task.
use agent_claw.Base.{
  ℕ, ◌≡◌, refl, inl, inr, String, true, List, [], ◌∷◌, Option, none, some, Bool-cases,
  if◌then◌else◌, join, eq_refl,
}
use agent_claw.Domain.Models.{escalation_chain, is_human_level, model_human}
use agent_claw.Domain.Types.{EscalationResult, PhaseCheckpoint}
use agent_claw.Port.{EscalatorRequest, Result, ok, err}
use agent_claw.Escalation.Types.{
  Env, Act, Trace, Reply, answered, channel_closed, timed_out, delete_checkpoint, perform_if,
  stored,
}
use agent_claw.Escalation.Cache
use agent_claw.Escalation.Chain.{
  Attempt, confident, declined, failed, checkpoint_for, announce_failure, announce_answer,
  after_attempt, try_levels, after_reply, after_asking, ask_the_human, after_levels, after_check,
  resolve, dispatch_event,
}

-- The checkpoint of a question that waits for the human.
abbrev pub human_checkpoint : EscalatorRequest → PhaseCheckpoint
human_checkpoint req =
    checkpoint_for req "human_escalation" model_human
      (("escalation_path", join " → " (escalation_chain req.agent_model)) ∷ [])

-- What is stored when the cache has missed.
abbrev pub checkpoint_left : EscalatorRequest → Result EscalationResult → Option PhaseCheckpoint
checkpoint_left req (ok r) = if r.resolved then none else some (human_checkpoint req)
checkpoint_left req (err e) = some (human_checkpoint req)

module _ (e : Env) (req : EscalatorRequest) (present : e.has_checkpoint ≡ true) where
  stored-settled :
      (answer : String) (t : Trace)
      → stored req.task_id
          (perform_if e.has_checkpoint
            (delete_checkpoint req.task_id)
            (Cache.save e req.question answer req.agent_role t).1).1
        ≡ none
  stored-settled answer t = rw (present, eq_refl req.task_id) refl

  -- What the loop leaves: nothing stored with an answer.
  abbrev IsLeft : Option EscalationResult → Trace → Type 0
  IsLeft none t = Unit
  IsLeft (some r) t = (r.resolved ≡ true) × (stored req.task_id t ≡ none)

  after_attempt-IsLeft :
      (level : String) (next : Act (Option EscalationResult)) (a : Attempt) (t : Trace)
      → ((s : Trace) → IsLeft (next s).0 (next s).1)
      → IsLeft (after_attempt e req level next a t).0 (after_attempt e req level next a t).1
  unfolding after_attempt announce_failure announce_answer dispatch_event
  after_attempt-IsLeft level next declined t k = k t
  after_attempt-IsLeft level next (failed m) t k = k _
  after_attempt-IsLeft level next (confident a) t k = (refl, stored-settled a t)

  try_levels-IsLeft :
      (levels : List String) (t : Trace)
      → IsLeft (try_levels e req levels t).0 (try_levels e req levels t).1
  unfolding try_levels
  try_levels-IsLeft [] t = tt
  try_levels-IsLeft (level ∷ rest) t = elim (Bool-cases (is_human_level level)) [
    | inl h ↦ rw h tt
    | inr h ↦ rw h (after_attempt-IsLeft level _ _ _ (try_levels-IsLeft rest))
  ]

  after_reply-checkpoint_left :
      (msg_id : ℕ) (reply : Reply) (t : Trace)
      → stored req.task_id t ≡ some (human_checkpoint req)
      → stored req.task_id (after_reply e req msg_id reply t).1
        ≡ checkpoint_left req (after_reply e req msg_id reply t).0
  unfolding after_reply
  after_reply-checkpoint_left msg_id (answered a) t h = stored-settled a t
  after_reply-checkpoint_left msg_id channel_closed t h = h
  after_reply-checkpoint_left msg_id timed_out t h = h

  after_asking-checkpoint_left :
      (path : List String) (asked : Result ℕ) (t : Trace)
      → stored req.task_id t ≡ some (human_checkpoint req)
      → stored req.task_id (after_asking e req path asked t).1
        ≡ checkpoint_left req (after_asking e req path asked t).0
  unfolding after_asking dispatch_event
  after_asking-checkpoint_left path (err e') t h = h
  after_asking-checkpoint_left path (ok msg_id) t h = after_reply-checkpoint_left msg_id _ _ h

  after_levels-checkpoint_left :
      (found : Option EscalationResult) (t : Trace)
      → IsLeft found t
      → stored req.task_id (after_levels e req (escalation_chain req.agent_model) found t).1
        ≡ checkpoint_left req (after_levels e req (escalation_chain req.agent_model) found t).0
  unfolding after_levels ask_the_human checkpoint_for
  after_levels-checkpoint_left none t h =
      after_asking-checkpoint_left _ _ _ (rw (present, eq_refl req.task_id) refl)
  after_levels-checkpoint_left (some r) t h = rw h.0 h.1

  -- With a checkpoint store that takes every save and delete, a resolution that the cache does not answer leaves no checkpoint of the
  -- task when it is resolved; when it is suspended or fails it leaves the one of the pending question,
  -- escalated to the human.
  pub resolve-checkpoint_left :
      (t : Trace)
      → (Cache.check e req.question req.agent_role t).0 ≡ none
      → stored req.task_id (resolve e req t).1 ≡ checkpoint_left req (resolve e req t).0
  unfolding resolve after_check
  resolve-checkpoint_left t miss =
      rw miss (after_levels-checkpoint_left _ _ (try_levels-IsLeft _ _))
