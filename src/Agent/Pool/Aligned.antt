-- ===== src/Agent/Pool/Aligned.antt =====
-- The steps of the pool keep its entries in agreement.
use agent_claw.Base.{
  [], ◌≡◌, refl, ap, ◌∙◌, inl, inr, String, true, List, ◌∷◌, Option, none, some, Dict, lookup, Bool,
  Bool-cases,
}
use agent_claw.Agent.Pool.{
  Config, Agent, Supervisor, Waiting, Pool, Env, close_ch, entered, supervised, fresh, counted,
  spawn_new, spawn, kill_found, kill_start, restart_found, restart_start, shutting_down,
  spawn_again, kill_end, exit, tick_found, tick, restart_entries, restart_from_supervisor,
}
use agent_claw.Agent.Pool.Shutdown.{
  signal_all, shut_down_if, shut_down_each, ids_of, set_found, set_status,
}
use agent_claw.Agent.Pool.Steps.{
  put_back, Step, spawning, killing, restarting, woken, stopped, ticked, renewed, setting,
  signalled, shut, Reaches, from_new, by_step, present, IsAligned, insert-over, close_ch-IsAligned,
  close_ch-agents, entered-IsAligned, removed-IsAligned,
}

spawn_new-IsAligned :
    (a : Agent) (o : Option (Option Agent)) (p : Pool) → IsAligned p → IsAligned (spawn_new a o p).1
unfolding spawn_new supervised
spawn_new-IsAligned a (some old) p inv = inv
spawn_new-IsAligned a none p inv =
    entered-IsAligned a.config.id a a.config _
      (record { has_config = inv.has_config; has_stop = inv.has_stop; has_done = inv.has_done })

kill_found-IsAligned :
    (id : String) (again : Option Config) (o : Option (Option Agent)) (p : Pool)
    → lookup id p.agents ≡ o
    → IsAligned p
    → IsAligned (kill_found id again o p).1
unfolding kill_found
kill_found-IsAligned id again none p h inv = inv
kill_found-IsAligned id again (some a) p h inv =
    let q = close_ch (lookup id p.stop_ch) p in
    let closed = close_ch-IsAligned (lookup id p.stop_ch) p inv in
    let there : present (lookup id q.agents) ≡ true =
      ap (λ d. present (lookup id d)) (close_ch-agents (lookup id p.stop_ch) p) ∙ ap present h in
    record {
      has_config = insert-over q.configs q.agents id none there closed.has_config;
      has_stop = insert-over q.stop_ch q.agents id none there closed.has_stop;
      has_done = insert-over q.done_ch q.agents id none there closed.has_done;
    }

restart_found-IsAligned :
    (id : String) (o : Option Config) (p : Pool) → IsAligned p → IsAligned (restart_found id o p).1
unfolding restart_found kill_start
restart_found-IsAligned id none p inv = inv
restart_found-IsAligned id (some cfg) p inv = kill_found-IsAligned id (some cfg) _ p refl inv

spawn_again-IsAligned :
    (id : String) (again : Option Config) (p : Pool)
    → IsAligned p
    → IsAligned (spawn_again id again p)
unfolding spawn_again supervised counted
spawn_again-IsAligned id none p inv = inv
spawn_again-IsAligned id (some cfg) p inv =
    entered-IsAligned id (fresh cfg p) cfg _
      (record { has_config = inv.has_config; has_stop = inv.has_stop; has_done = inv.has_done })

shutting_down-IsAligned :
    (o : Option Agent) (p : Pool) → IsAligned p → IsAligned (shutting_down o p)
unfolding shutting_down
shutting_down-IsAligned none p inv = record {
  has_config = inv.has_config;
  has_stop = inv.has_stop;
  has_done = inv.has_done;
}
shutting_down-IsAligned (some a) p inv = record {
  has_config = inv.has_config;
  has_stop = inv.has_stop;
  has_done = inv.has_done;
}

kill_end-IsAligned : (w : Waiting) (p : Pool) → IsAligned p → IsAligned (kill_end w p)
unfolding kill_end
kill_end-IsAligned w p inv =
    spawn_again-IsAligned w.id w.again _
      (removed-IsAligned w.id _ (shutting_down-IsAligned w.agent p inv))

put_back-IsAligned :
    (before after : List Supervisor) (s : Supervisor) (p : Pool)
    → IsAligned p
    → IsAligned (put_back before after s p)
put_back-IsAligned before after s p inv = record {
  has_config = inv.has_config;
  has_stop = inv.has_stop;
  has_done = inv.has_done;
}

tick_found-IsAligned :
    (e : Env) (s : Supervisor) (o : Option (Option Agent)) (before after : List Supervisor)
    (p : Pool)
    → IsAligned p
    → IsAligned (tick_found e s o (put_back before after) p)
unfolding tick_found exit
tick_found-IsAligned e s none before after p inv = close_ch-IsAligned (some s.done) p inv
tick_found-IsAligned e s (some none) before after p inv = record {
  has_config = inv.has_config;
  has_stop = inv.has_stop;
  has_done = inv.has_done;
}
tick_found-IsAligned e s (some (some a)) before after p inv =
    elim (Bool-cases (e.has_failed a p.trace)) [
      | inl failed ↦ rw failed (put_back-IsAligned before after _ p inv)
      | inr well ↦
          rw well (record {
            has_config = inv.has_config;
            has_stop = inv.has_stop;
            has_done = inv.has_done;
          })
    ]

restart_entries-IsAligned :
    (s : Supervisor) (o : Option (Option Agent)) (c : Option Config)
    (before after : List Supervisor) (p : Pool)
    → IsAligned p
    → IsAligned (restart_entries s o c (put_back before after) p)
unfolding restart_entries exit counted
restart_entries-IsAligned s none c before after p inv = close_ch-IsAligned (some s.done) p inv
restart_entries-IsAligned s (some old) none before after p inv =
    close_ch-IsAligned (some s.done) p inv
restart_entries-IsAligned s (some old) (some cfg) before after p inv =
    let down = shutting_down-IsAligned old p inv in
    put_back-IsAligned before after _
      (entered s.id (fresh cfg p) cfg (counted (shutting_down old p)))
      (entered-IsAligned s.id (fresh cfg p) cfg _ (record {
        has_config = down.has_config;
        has_stop = down.has_stop;
        has_done = down.has_done;
      }))

signal_all-IsAligned : (ids : List String) (p : Pool) → IsAligned p → IsAligned (signal_all ids p)
unfolding signal_all
signal_all-IsAligned [] p inv = inv
signal_all-IsAligned (id ∷ ids) p inv =
    signal_all-IsAligned ids _ (close_ch-IsAligned (lookup id p.stop_ch) p inv)

shut_down_if-IsAligned : (o : Option Agent) (p : Pool) → IsAligned p → IsAligned (shut_down_if o p)
unfolding shut_down_if
shut_down_if-IsAligned none p inv = inv
shut_down_if-IsAligned (some a) p inv = record {
  has_config = inv.has_config;
  has_stop = inv.has_stop;
  has_done = inv.has_done;
}

shut_down_each-IsAligned :
    (agents : Dict (Option Agent)) (p : Pool) → IsAligned p → IsAligned (shut_down_each agents p)
unfolding shut_down_each
shut_down_each-IsAligned [] p inv = inv
shut_down_each-IsAligned (entry ∷ agents) p inv =
    shut_down_each-IsAligned agents _ (shut_down_if-IsAligned entry.1 p inv)

set_found-IsAligned :
    (is_base : Agent → Bool) (s : String) (o : Option (Option Agent)) (p : Pool)
    → IsAligned p
    → IsAligned (set_found is_base s o p)
unfolding set_found
set_found-IsAligned is_base s none p inv = inv
set_found-IsAligned is_base s (some none) p inv = inv
set_found-IsAligned is_base s (some (some a)) p inv = elim (Bool-cases (is_base a)) [
  | inl h ↦
      rw h
        (record { has_config = inv.has_config; has_stop = inv.has_stop; has_done = inv.has_done })
  | inr h ↦ rw h inv
]

Step-IsAligned : (e : Env) (p q : Pool) → Step e p q → IsAligned p → IsAligned q
unfolding spawn kill_start restart_start exit tick restart_from_supervisor set_status
Step-IsAligned e _ _ (spawning a p) inv = spawn_new-IsAligned a _ p inv
Step-IsAligned e _ _ (killing id p) inv = kill_found-IsAligned id none _ p refl inv
Step-IsAligned e _ _ (restarting id p) inv = restart_found-IsAligned id _ p inv
Step-IsAligned e _ _ (woken p before after w done here waits closed) inv =
    kill_end-IsAligned w _
      (record { has_config = inv.has_config; has_stop = inv.has_stop; has_done = inv.has_done })
Step-IsAligned e _ _ (stopped p before after s here saw closed) inv =
    close_ch-IsAligned (some s.done) _
      (record { has_config = inv.has_config; has_stop = inv.has_stop; has_done = inv.has_done })
Step-IsAligned e _ _ (ticked p before after s here saw) inv =
    tick_found-IsAligned e s _ before after _
      (record { has_config = inv.has_config; has_stop = inv.has_stop; has_done = inv.has_done })
Step-IsAligned e _ _ (renewed p before after s here saw) inv =
    restart_entries-IsAligned s _ _ before after _
      (record { has_config = inv.has_config; has_stop = inv.has_stop; has_done = inv.has_done })
Step-IsAligned e _ _ (setting is_base id s p) inv =
    set_found-IsAligned is_base s (lookup id p.agents) p inv
Step-IsAligned e _ _ (signalled p) inv = signal_all-IsAligned (ids_of p.agents) p inv
Step-IsAligned e _ _ (shut p) inv = shut_down_each-IsAligned p.agents p inv

-- Whatever the callers and the supervisors do, in any order, an id has an agent (or the nil of a kill), a
-- configuration, a stop and a done channel, or none of the four.
pub Reaches-IsAligned : (e : Env) (p : Pool) → Reaches e p → IsAligned p
unfolding lookup
Reaches-IsAligned e _ from_new = record {
  has_config = λ id. refl;
  has_stop = λ id. refl;
  has_done = λ id. refl;
}
Reaches-IsAligned e _ (by_step p q reached step) =
    Step-IsAligned e p q step (Reaches-IsAligned e p reached)
