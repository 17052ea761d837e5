-- ===== src/Tests/Waiters.antt =====
-- Runs of internal/infra/task/waiter.go.
use agent_claw.Base.{if◌then◌else◌, ◌≡◌, refl, eq_iff, arith, none, some, [], ◌∷◌, lookup}
use agent_claw.Domain.Types.{Event, status_channel}
use agent_claw.Port.{err}
use agent_claw.Waiter.{failure_of, new_event_waiter, register, wait_on}
use agent_claw.Waiter.Runs.{registers, completes, fails, stops, has_stop, run, first_end}
use agent_claw.Waiter.Delivery.{delivers_first}

abbrev ended : Event
ended = record {
  type = "task.failed";
  channel = status_channel;
  task_id = "t1";
  agent_id = "a1";
  agent_role = "coding";
  model = "glm5";
  payload = ("reason", "no tests") ∷ [];
  occurred_at = 0;
}

-- Another task is registered, then the task fails; that it is done later comes too late.
first_wins :
    first_end "t1" (registers "t2" ∷ fails ended ∷ completes ended ∷ [])
    ≡ some (err "task t1 failed: no tests")
unfolding first_end failure_of lookup
first_wins = refl

delivers_first_example :
    let before = registers "t0" ∷ [] in
    let w = run before new_event_waiter in
    let later = registers "t2" ∷ fails ended ∷ stops ∷ completes ended ∷ [] in
    ((register "t1" w).0 ≡ (if has_stop before then none else some w.made))
    × ((wait_on none "t1" (register "t1" w).0 (run later (register "t1" w).1)).0
        ≡ (if has_stop before then some (err "waiter is stopped") else first_end "t1" later))
delivers_first_example =
    delivers_first (registers "t0" ∷ [])
      (registers "t2" ∷ fails ended ∷ stops ∷ completes ended ∷ []) "t1"
      (λ h. ground (arith, h, eq_iff "t2" "t1"), (tt, (tt, (tt, tt))))
