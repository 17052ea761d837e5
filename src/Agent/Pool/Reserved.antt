-- ===== src/Agent/Pool/Reserved.antt =====
-- The id of an agent of internal/agent/pool.go while the agent is killed.
use agent_claw.Base.{
  [], ◌≡◌, ◌≢◌, refl, ap, ◌∙◌, inl, inr, String, Bool, true, List, ◌∷◌, Option, none, some, ◌⧺◌,
  Dict, lookup, ◌==◌, arith, insert, delete, lookup-insert, lookup-delete, Bool-cases, eq_refl,
  eq_iff,
}
use agent_claw.Agent.Pool.{
  Config, Agent, Supervisor, Waiting, Pool, Env, close_ch, entered, supervised, counted, spawn_new,
  spawn, kill_found, kill_start, restart_found, restart_start, shutting_down, removed, spawn_again,
  kill_end, exit, tick_found, tick, restart_entries, restart_from_supervisor,
}
use agent_claw.Agent.Pool.Shutdown.{
  signal_all, shut_down_if, shut_down_each, ids_of, set_found, set_status,
}
use agent_claw.Agent.Pool.Steps.{
  put_back, Step, spawning, killing, restarting, woken, stopped, ticked, renewed, setting,
  signalled, shut, present, close_ch-agents,
}
use agent_claw.Agent.Pool.Overlaps.{begun-agent}

-- A step that is not the end of a kill or a restart of this id.
abbrev pub IsNoEnd : (e : Env) (id : String) (p q : Pool) → Step e p q → Type 0
IsNoEnd e id _ _ (woken p before after w done here waits closed) = w.id ≢ id
IsNoEnd e id _ _ _ = Unit

-- Steps of any callers and supervisors, none of which is the end of a kill or a restart of this id.
pub data Meanwhile (e : Env) (id : String) : Pool → Pool → Type 0 where
  at_once : (p : Pool) → Meanwhile e id p p
  and_then :
      (p q r : Pool)
      → Meanwhile e id p q
      → (step : Step e q r) → IsNoEnd e id q r step
      → Meanwhile e id p r

-- The pool has an entry for the id.
abbrev Takes : String → Pool → Type 0
Takes id p = present (lookup id p.agents) ≡ true

module _ (id : String) where
  taken-insert :
      (key : String) (a : Option Agent) (agents : Dict (Option Agent))
      → present (lookup id agents) ≡ true
      → present (lookup id (insert key a agents)) ≡ true
  taken-insert key a agents h =
      rw (lookup-insert key id a agents)
        (elim (Bool-cases (key == id)) [ inl e ↦ rw e refl | inr d ↦ rw d h ])

  taken-delete :
      (key : String) (agents : Dict (Option Agent))
      → key ≢ id
      → present (lookup id agents) ≡ true
      → present (lookup id (delete key agents)) ≡ true
  taken-delete key agents other h =
      rw (lookup-delete key id agents) (elim (Bool-cases (key == id)) [
        | inl e ↦ absurd (other ((eq_iff key id).0 e))
        | inr d ↦ rw d h
      ])

  close_ch-Takes : (o : Option _) (p : Pool) → Takes id p → Takes id (close_ch o p)
  close_ch-Takes o p h = ap (λ agents. present (lookup id agents)) (close_ch-agents o p) ∙ h

  shutting_down-Takes : (o : Option Agent) (p : Pool) → Takes id p → Takes id (shutting_down o p)
  unfolding shutting_down
  shutting_down-Takes none p h = h
  shutting_down-Takes (some a) p h = h

  spawn_new-Takes :
      (a : Agent) (o : Option (Option Agent)) (p : Pool) → Takes id p → Takes id (spawn_new a o p).1
  unfolding spawn_new entered supervised
  spawn_new-Takes a none p h = taken-insert a.config.id (some a) p.agents h
  spawn_new-Takes a (some old) p h = h

  kill_found-Takes :
      (key : String) (again : Option Config) (o : Option (Option Agent)) (p : Pool)
      → Takes id p
      → Takes id (kill_found key again o p).1
  unfolding kill_found
  kill_found-Takes key again none p h = h
  kill_found-Takes key again (some a) p h =
      taken-insert key none _ (close_ch-Takes (lookup key p.stop_ch) p h)

  restart_found-Takes :
      (key : String) (o : Option Config) (p : Pool)
      → Takes id p
      → Takes id (restart_found key o p).1
  unfolding restart_found kill_start
  restart_found-Takes key none p h = h
  restart_found-Takes key (some cfg) p h = kill_found-Takes key (some cfg) _ p h

  spawn_again-Takes :
      (key : String) (again : Option Config) (p : Pool)
      → Takes id p
      → Takes id (spawn_again key again p)
  unfolding spawn_again entered supervised counted
  spawn_again-Takes key none p h = h
  spawn_again-Takes key (some cfg) p h = taken-insert key _ p.agents h

  kill_end-Takes : (w : Waiting) (p : Pool) → w.id ≢ id → Takes id p → Takes id (kill_end w p)
  unfolding kill_end removed
  kill_end-Takes w p other h =
      spawn_again-Takes w.id w.again _ (taken-delete w.id _ other (shutting_down-Takes w.agent p h))

  tick_found-Takes :
      (e : Env) (s : Supervisor) (o : Option (Option Agent)) (before after : List Supervisor)
      (p : Pool)
      → Takes id p
      → Takes id (tick_found e s o (put_back before after) p)
  unfolding tick_found exit
  tick_found-Takes e s none before after p h = close_ch-Takes (some s.done) p h
  tick_found-Takes e s (some none) before after p h = h
  tick_found-Takes e s (some (some a)) before after p h =
      elim (Bool-cases (e.has_failed a p.trace)) [ inl b ↦ rw b h | inr b ↦ rw b h ]

  restart_entries-Takes :
      (s : Supervisor) (o : Option (Option Agent)) (c : Option Config)
      (before after : List Supervisor) (p : Pool)
      → Takes id p
      → Takes id (restart_entries s o c (put_back before after) p)
  unfolding restart_entries exit entered counted
  restart_entries-Takes s none c before after p h = close_ch-Takes (some s.done) p h
  restart_entries-Takes s (some old) none before after p h = close_ch-Takes (some s.done) p h
  restart_entries-Takes s (some old) (some cfg) before after p h =
      taken-insert s.id _ _ (shutting_down-Takes old p h)

  set_found-Takes :
      (is_base : Agent → Bool) (st : String) (o : Option (Option Agent)) (p : Pool)
      → Takes id p
      → Takes id (set_found is_base st o p)
  unfolding set_found
  set_found-Takes is_base st none p h = h
  set_found-Takes is_base st (some none) p h = h
  set_found-Takes is_base st (some (some a)) p h = elim (Bool-cases (is_base a)) [
    | inl b ↦ rw b h
    | inr b ↦ rw b h
  ]

  signal_all-Takes : (ids : List String) (p : Pool) → Takes id p → Takes id (signal_all ids p)
  unfolding signal_all
  signal_all-Takes [] p h = h
  signal_all-Takes (key ∷ ids) p h =
      signal_all-Takes ids _ (close_ch-Takes (lookup key p.stop_ch) p h)

  shut_down_if-Takes : (o : Option Agent) (p : Pool) → Takes id p → Takes id (shut_down_if o p)
  unfolding shut_down_if
  shut_down_if-Takes none p h = h
  shut_down_if-Takes (some a) p h = h

  shut_down_each-Takes :
      (agents : Dict (Option Agent)) (p : Pool) → Takes id p → Takes id (shut_down_each agents p)
  unfolding shut_down_each
  shut_down_each-Takes [] p h = h
  shut_down_each-Takes (entry ∷ agents) p h =
      shut_down_each-Takes agents _ (shut_down_if-Takes entry.1 p h)

  Step-Takes :
      (e : Env) (p q : Pool) (step : Step e p q) → IsNoEnd e id p q step → Takes id p → Takes id q
  unfolding spawn kill_start restart_start exit tick restart_from_supervisor set_status
  Step-Takes e _ _ (spawning a p) n h = spawn_new-Takes a _ p h
  Step-Takes e _ _ (killing key p) n h = kill_found-Takes key none _ p h
  Step-Takes e _ _ (restarting key p) n h = restart_found-Takes key _ p h
  Step-Takes e _ _ (woken p before after w done here waits closed) n h = kill_end-Takes w _ n h
  Step-Takes e _ _ (stopped p before after s here saw closed) n h = close_ch-Takes (some s.done) _ h
  Step-Takes e _ _ (ticked p before after s here saw) n h = tick_found-Takes e s _ before after _ h
  Step-Takes e _ _ (renewed p before after s here saw) n h =
      restart_entries-Takes s _ _ before after _ h
  Step-Takes e _ _ (setting is_base key s p) n h =
      set_found-Takes is_base s (lookup key p.agents) p h
  Step-Takes e _ _ (signalled p) n h = signal_all-Takes (ids_of p.agents) p h
  Step-Takes e _ _ (shut p) n h = shut_down_each-Takes p.agents p h

  Meanwhile-Takes : (e : Env) (p q : Pool) → Meanwhile e id p q → Takes id p → Takes id q
  Meanwhile-Takes e _ _ (at_once p) h = h
  Meanwhile-Takes e _ _ (and_then p q r sofar step n) h =
      Step-Takes e q r step n (Meanwhile-Takes e p q sofar h)

spawn_new-refused :
    (a : Agent) (o : Option (Option Agent)) (p : Pool)
    → present o ≡ true
    → (spawn_new a o p).0 ≡ some ("agent " ⧺ a.config.id ⧺ " already exists")
unfolding spawn_new
spawn_new-refused a none p h = absurd (ground (arith, h))
spawn_new-refused a (some old) p h = refl

-- After a kill or a restart of an agent has begun, and any steps of callers and supervisors of which none is the end
-- of a kill or a restart of its id, a spawn with that id is refused; and right after such a kill has ended, it is
-- not.
pub kill_reserves :
    (e : Env) (a : Agent) (again : Option Config) (p q : Pool) (x : Option Agent) (w : Waiting)
    → lookup a.config.id p.agents ≡ some x
    → Meanwhile e a.config.id (kill_start a.config.id again p).1 q
    → w.id ≡ a.config.id
    → w.again ≡ none
    → ((spawn a q).0 ≡ some ("agent " ⧺ a.config.id ⧺ " already exists"))
      × ((spawn a (kill_end w q)).0 ≡ none)
unfolding spawn spawn_new kill_end spawn_again removed
kill_reserves e a again p q x w here meanwhile own last = (
  spawn_new-refused a _ q (
      Meanwhile-Takes a.config.id e _ q meanwhile
        (ap present (begun-agent a.config.id again p x here))),
  rw
      (
        own,
        last,
        lookup-delete a.config.id a.config.id (shutting_down w.agent q).agents,
        eq_refl a.config.id,
      )
      refl,
)
