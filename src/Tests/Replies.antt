-- ===== src/Tests/Replies.antt =====
-- Runs of internal/agent/reply_store.go.
use agent_claw.Base.{◌≡◌, ◌↔◌, refl, true, false, List, [], ◌∷◌, none, some, arith}
use agent_claw.Agent.Replies.{
  Call, registering, resolving, resolve, reregistering, empty_channel, new, run, has_pending,
  resolve_by_task, register, set,
}
use agent_claw.Agent.Replies.Channels.{IsSound, run-IsSound, resolve_delivers}
use agent_claw.Agent.Replies.Waiting.{Waits, Answered, has_pending-Waits}
use agent_claw.Agent.Replies.Crossing.{answers_cross}

abbrev calls : List Call
calls = registering 7 "t1" "q1" ∷ registering 8 "t1" "q2" ∷ resolving 7 "yes" ∷ []

run-IsSound_example : IsSound (run calls new)
run-IsSound_example = run-IsSound calls

resolve_delivers_example :
    let s = resolve 8 "no" (run calls new) in
    (s.channels 1 ≡ record { content = some "no"; closed = false }) × (s.by_msg_id 8 ≡ none)
unfolding resolve register
resolve_delivers_example =
    resolve_delivers calls 8 "no" (record { ch = 1; task_id = "t1"; question_id = "q2" }) refl

abbrev two_waiting : List Call
two_waiting = registering 7 "t1" "q1" ∷ registering 8 "t1" "q2" ∷ []

has_pending-Waits_example :
    let s = run two_waiting new in
    ((has_pending "t1" s ≡ true) ↔ Waits "t1" s)
    × ((resolve_by_task "t1" "yes" s).0 ≡ has_pending "t1" s)
    × (((resolve_by_task "t1" "yes" s).0 ≡ true)
        ↔ Answered "t1" "yes" s (resolve_by_task "t1" "yes" s).1)
unfolding register set
has_pending-Waits_example = has_pending-Waits two_waiting "t1" "yes" (refl, (refl, tt))

answers_cross_example :
    let s =
      run
        (registering 0 "t1" "q1"
          ∷ registering 0 "t2" "q2"
          ∷ reregistering 0 7 "t1" "q1"
          ∷ reregistering 0 8 "t2" "q2"
          ∷ resolving 7 "yes"
          ∷ [])
        new in
    (s.channels 0 ≡ empty_channel)
    × (s.channels 1 ≡ record { content = some "yes"; closed = false })
    × (s.by_msg_id 8 ≡ none)
answers_cross_example =
    answers_cross "t1" "t2" "q1" "q2" "yes" 7 8 (λ h. omega (arith, h)) (λ h. omega (arith, h))
      (λ h. omega (arith, h))
