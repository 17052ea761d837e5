-- ===== src/Agent/Replies/Crossing.antt =====
-- Two questions that are registered as message 0 before their messages have numbers, as phaseClarify of
-- internal/agent/pre_executor.go does.
use agent_claw.Base.{ℕ, ◌≡◌, ◌≢◌, refl, String, true, false, [], ◌∷◌, none, some, eqb, arith}
use agent_claw.Agent.Replies.{
  empty_channel, new, set, take_out, send, filled, register, resolve, resolve_entry, move_entry,
  reregister, registering, resolving, reregistering, run,
}

eqb-same : (a b : ℕ) → a ≡ b → eqb a b ≡ true
eqb-same a b h = ground arith

eqb-differ : (a b : ℕ) → a ≢ b → eqb a b ≡ false
eqb-differ a b h = ground arith

-- When two questions are registered as message 0 before either gets its own message, the answer to the
-- first message goes to the asker of the second question, the first asker's channel stays empty, and the
-- second message waits for nothing.
pub answers_cross :
    (task task' question question' answer : String) (msg msg' : ℕ)
    → msg ≢ 0
    → msg' ≢ 0
    → msg ≢ msg'
    → let s =
        run
          (registering 0 task question
            ∷ registering 0 task' question'
            ∷ reregistering 0 msg task question
            ∷ reregistering 0 msg' task' question'
            ∷ resolving msg answer
            ∷ [])
          new in
      (s.channels 0 ≡ empty_channel)
      × (s.channels 1 ≡ record { content = some answer; closed = false })
      × (s.by_msg_id msg' ≡ none)
unfolding register reregister move_entry resolve resolve_entry take_out send set filled
answers_cross task task' question question' answer msg msg' h h' d =
    rw (eqb-differ msg 0 h, eqb-same msg msg refl) (refl, refl, ground (arith, d))
