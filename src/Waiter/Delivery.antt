-- ===== src/Waiter/Delivery.antt =====
-- What a wait of internal/infra/task/waiter.go gets.
use agent_claw.Base.{
  ℕ, ◌≡◌, refl, sym, ap, ◌∙◌, inl, inr, String, true, false, if◌then◌else◌, List, Option, none,
  some, ◌==◌, lookup-insert, All, Bool-cases, eq_iff, arith,
}
use agent_claw.Domain.Types.{TaskResult}
use agent_claw.Port.{Result, err}
use agent_claw.Waiter.{EventWaiter, new_event_waiter, register, received, wait, wait_on}
use agent_claw.Waiter.Runs.{
  Op, run, Spares, first_end, IsFresh, run-new-IsFresh, run-closed, has_stop,
}
use agent_claw.Waiter.Awaits.{Awaits, kept, run-Awaits}

-- A new registration awaits its end on a channel that is its own and empty.
register-Awaits :
    (id : String) (w : EventWaiter)
    → w.closed ≡ false
    → IsFresh w
    → Awaits id w.made none (register id w).1
unfolding register
register-Awaits id w still inv = rw still (record {
  entry = ground (arith, lookup-insert id id w.made w.waiters, eq_iff id id);
  own = λ t d h same. elim (Bool-cases (id == t)) [
    | inl s ↦ sym ((eq_iff id t).0 s)
    | inr s ↦
        absurd (ground (arith, h, same, lookup-insert id t w.made w.waiters, s, inv.known t d))
  ];
  old = omega arith;
  holds = inv.empty w.made (omega arith);
})

registered_channel :
    (id : String) (w : EventWaiter) → w.closed ≡ false → (register id w).0 ≡ some w.made
unfolding register
registered_channel id w still = rw still refl

registered_none : (id : String) (w : EventWaiter) → w.closed ≡ true → (register id w).0 ≡ none
unfolding register
registered_none id w stopped = rw stopped refl

wait_received :
    (id : String) (c : ℕ) (o : Option (Result TaskResult)) (w : EventWaiter)
    → (received id c o w).0 ≡ o
unfolding received
wait_received id c none w = refl
wait_received id c (some r) w = refl

-- After any operations of a new waiter, a registration gets a channel unless the waiter was stopped before. When
-- others then register, wait, publish and stop the waiter in any order, but none registers or waits for the same
-- task or on that channel, the wait on it returns what the first event of the task says, be it done or failed, or
-- that the waiter stopped, where that came first, and goes on where none of this is; and where the waiter was
-- stopped before, the wait returns the error that it is stopped.
pub delivers_first :
    (before later : List Op) (id : String)
    → let w = run before new_event_waiter in
      All (Spares id w.made) later
      → ((register id w).0 ≡ (if has_stop before then none else some w.made))
        × ((wait_on none id (register id w).0 (run later (register id w).1)).0
            ≡ (if has_stop before then some (err "waiter is stopped") else first_end id later))
unfolding wait_on wait kept
delivers_first before later id spared =
    let w = run before new_event_waiter in
    let done = run-closed before new_event_waiter in
    elim (Bool-cases (has_stop before)) [
      | inl stopped ↦
          let channel = registered_none id w (done ∙ stopped) in
          rw stopped
            (channel, ap (λ o. (wait_on none id o (run later (register id w).1)).0) channel)
      | inr not_stopped ↦
          let still : w.closed ≡ false = done ∙ not_stopped in
          let channel = registered_channel id w still in
          let awaits =
            run-Awaits id w.made later none _ spared
              (register-Awaits id w still (run-new-IsFresh before)) in
          rw not_stopped (
            channel,
            ap (λ o. (wait_on none id o (run later (register id w).1)).0) channel
                ∙ wait_received id w.made _ _
                ∙ awaits.holds,
          )
    ]
