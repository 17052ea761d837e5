-- ===== src/Tests/Pools.antt =====
-- Runs of internal/agent/pool.go.
use agent_claw.Base.{◌≡◌, refl, true, false, [], none, some, ◌⧺◌, lookup, insert, ◌∷◌}
use agent_claw.Agent.Pool.{
  Agent, Supervisor, Waiting, Pool, Env, new_pool, spawn, kill_start, kill_end, tick, entered,
}
use agent_claw.Agent.Pool.Shutdown.{status_all, signal_all, ids_of}
use agent_claw.Agent.Pool.Steps.{
  from_new, by_step, spawning, killing, signalled, IsAligned, put_back,
}
use agent_claw.Agent.Pool.Aligned.{Reaches-IsAligned}
use agent_claw.Agent.Pool.Overlaps.{overlap_panics}
use agent_claw.Agent.Pool.Reserved.{at_once, and_then, kill_reserves}

abbrev coder : Agent
coder = record { number = 0; config = record { id = "a1"; role = "coding" } }

abbrev calm : Env
calm = record { has_failed = λ a t. false; is_healthy = λ a t. true }

abbrev one_agent : Pool
one_agent = (spawn coder new_pool).1

Reaches-IsAligned_example : IsAligned (kill_start "a1" none one_agent).1
Reaches-IsAligned_example = Reaches-IsAligned calm (kill_start "a1" none one_agent).1 (
    by_step one_agent _ (by_step new_pool _ from_new (spawning coder new_pool))
      (killing "a1" one_agent))

-- An agent that is being killed has no status.
killed_hidden :
    (status_all (λ a. "idle") one_agent.agents ≡ ("a1", "idle") ∷ [])
    × (status_all (λ a. "idle") (kill_start "a1" none one_agent).1.agents ≡ [])
unfolding status_all spawn entered lookup insert kill_start
killed_hidden = (refl, refl)

abbrev watcher : Supervisor
watcher = record { id = "a1"; stop = 0; done = 1; saw_failure = false }

overlap_panics_example :
    let q = (kill_start "a1" none one_agent).1 in
    ((kill_start "a1" none q).1.panicked ≡ true)
    × ((tick calm watcher (put_back [] []) q).panicked ≡ true)
unfolding spawn entered lookup insert
overlap_panics_example =
    overlap_panics calm "a1" none none one_agent (some coder) watcher (put_back [] []) refl refl

-- The call that waits for the supervisor of the agent.
abbrev waiter : Waiting
waiter = record { id = "a1"; agent = some coder; done = some 1; again = none }

kill_reserves_example :
    let q =
      signal_all
        (ids_of (kill_start "a1" none one_agent).1.agents)
        (kill_start "a1" none one_agent).1 in
    ((spawn coder q).0 ≡ some ("agent " ⧺ "a1" ⧺ " already exists"))
    × ((spawn coder (kill_end waiter q)).0 ≡ none)
unfolding spawn entered lookup insert
kill_reserves_example =
    kill_reserves calm coder none one_agent _ (some coder) waiter refl
      (and_then _ _ _ (at_once _) (signalled (kill_start "a1" none one_agent).1) tt) refl refl
