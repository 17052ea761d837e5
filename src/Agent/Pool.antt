-- ===== src/Agent/Pool.antt =====
-- internal/agent/pool.go: the agents, their supervisors, and the calls that wait for a supervisor to exit.
-- What is done under the mutex is one step; `Kill` and `Restart` are two, since they let go of it while they
-- wait. A channel is its number, and the state holds those that are closed.

pub mod Steps
pub mod Overlaps
pub mod Reserved
pub mod Aligned
pub mod Shutdown
use agent_claw.Base.{
  ℕ, suc, ◌+◌, String, Bool, true, false, not, ◌&&◌, ◌||◌, List, [], ◌∷◌, ◌++◌, Option, none, some,
  ◌⧺◌, ◌==◌, eqb, if◌then◌else◌, Dict, lookup, insert, delete,
}

-- `adapter.Config`, as far as the pool reads it.
pub record Config : Type 0 where
  pub id : String
  pub role : String

-- An agent, by the number under which it was made.
pub record Agent : Type 0 where
  pub number : ℕ
  pub config : Config

-- What the pool does to the outside.
pub data Effect : Type 0 where
  publish : String → String → Effect
  shut_down : Agent → Effect
  status_set : Agent → String → Effect

-- The goroutine of `supervise`, at its select or about to restart the agent that it saw fail.
pub record Supervisor : Type 0 where
  pub id : String
  pub stop : ℕ
  pub done : ℕ
  pub saw_failure : Bool

-- A call of `killLocked` that waits for a supervisor; the configuration for a restart.
pub record Waiting : Type 0 where
  pub id : String
  pub agent : Option Agent
  pub done : Option ℕ
  pub again : Option Config

-- `Pool`; an agent is nil while it is killed.
pub record Pool : Type 0 where
  pub agents : Dict (Option Agent)
  pub configs : Dict Config
  pub stop_ch : Dict ℕ
  pub done_ch : Dict ℕ
  pub closed : List ℕ
  pub made : ℕ
  pub agents_made : ℕ
  pub supervisors : List Supervisor
  pub waiting : List Waiting
  pub trace : List Effect
  pub panicked : Bool

-- `NewPool`.
abbrev pub new_pool : Pool
new_pool = record {
  agents = [];
  configs = [];
  stop_ch = [];
  done_ch = [];
  closed = [];
  made = 0;
  agents_made = 0;
  supervisors = [];
  waiting = [];
  trace = [];
  panicked = false;
}

-- What the agents answer.
pub record Env : Type 0 where
  pub has_failed : Agent → List Effect → Bool
  pub is_healthy : Agent → List Effect → Bool

unfoldable pub is_closed : ℕ → List ℕ → Bool
is_closed c [] = false
is_closed c (d ∷ closed) = eqb c d || is_closed c closed

-- `close`, which panics on nil and on a closed channel.
unfoldable pub close_ch : Option ℕ → Pool → Pool
unfolding is_closed
close_ch none p = record p { panicked = true }
close_ch (some c) p =
    if is_closed c p.closed
    then record p { panicked = true }
    else record p { closed = c ∷ p.closed }

-- The four entries of an agent, with new channels.
unfoldable pub entered : String → Agent → Config → Pool → Pool
entered id a cfg p = record p {
  agents = insert id (some a) p.agents;
  configs = insert id cfg p.configs;
  stop_ch = insert id p.made p.stop_ch;
  done_ch = insert id (suc p.made) p.done_ch;
  made = suc (suc p.made);
  trace = publish "agent.spawned" id ∷ p.trace;
}

supervised : String → Pool → Pool
supervised id p = record p {
  supervisors =
      record { id = id; stop = p.made; done = suc p.made; saw_failure = false } ∷ p.supervisors;
}

-- The agent that the factory makes.
fresh : Config → Pool → Agent
fresh cfg p = record { number = p.agents_made; config = cfg }

counted : Pool → Pool
counted p = record p { agents_made = suc p.agents_made }

spawn_new : Agent → Option (Option Agent) → Pool → Option String × Pool
unfolding entered supervised
spawn_new a (some old) p = (some ("agent " ⧺ a.config.id ⧺ " already exists"), p)
spawn_new a none p = (none, entered a.config.id a a.config (supervised a.config.id p))

-- `Spawn`.
unfoldable pub spawn : Agent → Pool → Option String × Pool
unfolding spawn_new
spawn a p = spawn_new a (lookup a.config.id p.agents) p

kill_found : String → Option Config → Option (Option Agent) → Pool → Option String × Pool
unfolding close_ch
kill_found id again none p = (some ("agent " ⧺ id ⧺ " not found"), p)
kill_found id again (some a) p =
    let p' = close_ch (lookup id p.stop_ch) p in
    (
      none,
      record p' {
        agents = insert id none p'.agents;
        waiting =
            record { id = id; agent = a; done = lookup id p'.done_ch; again = again } ∷ p'.waiting;
      },
    )

-- `killLocked` until it waits.
unfoldable pub kill_start : String → Option Config → Pool → Option String × Pool
unfolding kill_found
kill_start id again p = kill_found id again (lookup id p.agents) p

during_restart : Option String → Option String
during_restart none = none
during_restart (some m) = some ("kill during restart: " ⧺ m)

restart_found : String → Option Config → Pool → Option String × Pool
unfolding kill_start during_restart
restart_found id none p = (some ("agent " ⧺ id ⧺ " not found"), p)
restart_found id (some cfg) p =
    let (error, p') = kill_start id (some cfg) p in (during_restart error, p')

-- `Restart` until it waits.
unfoldable pub restart_start : String → Pool → Option String × Pool
unfolding restart_found
restart_start id p = restart_found id (lookup id p.configs) p

-- `OnShutdown`, which panics on a nil agent.
shutting_down : Option Agent → Pool → Pool
shutting_down none p = record p { panicked = true }
shutting_down (some a) p = record p { trace = shut_down a ∷ p.trace }

unfoldable pub removed : String → Pool → Pool
removed id p = record p {
  agents = delete id p.agents;
  configs = delete id p.configs;
  stop_ch = delete id p.stop_ch;
  done_ch = delete id p.done_ch;
  trace = publish "agent.killed" id ∷ p.trace;
}

spawn_again : String → Option Config → Pool → Pool
unfolding entered supervised fresh counted
spawn_again id none p = p
spawn_again id (some cfg) p = entered id (fresh cfg p) cfg (supervised id (counted p))

-- `killLocked` after it has waited, and the rest of `Restart`.
unfoldable pub kill_end : Waiting → Pool → Pool
unfolding shutting_down removed spawn_again
kill_end w p = spawn_again w.id w.again (removed w.id (shutting_down w.agent p))

-- The exit of a supervisor.
unfoldable pub exit : Supervisor → Pool → Pool
unfolding close_ch
exit s p = close_ch (some s.done) p

tick_found : Env → Supervisor → Option (Option Agent) → (Supervisor → Pool → Pool) → Pool → Pool
unfolding exit
tick_found e s none put p = exit s p
tick_found e s (some none) put p = record p { panicked = true }
tick_found e s (some (some a)) put p =
    if e.has_failed a p.trace
    then put (record s { saw_failure = true }) p
    else put s (record p {
      trace =
          publish (if e.is_healthy a p.trace then "agent.healthy" else "agent.failed") s.id
          ∷ p.trace;
    })

-- A tick of a supervisor; `put` keeps it among the others.
unfoldable pub tick : Env → Supervisor → (Supervisor → Pool → Pool) → Pool → Pool
unfolding tick_found
tick e s put p = tick_found e s (lookup s.id p.agents) put p

restart_entries :
    Supervisor → Option (Option Agent) → Option Config → (Supervisor → Pool → Pool) → Pool → Pool
unfolding exit entered shutting_down fresh counted
restart_entries s none cfg put p = exit s p
restart_entries s (some old) none put p = exit s p
restart_entries s (some old) (some cfg) put p =
    put (record { id = s.id; stop = p.made; done = suc p.made; saw_failure = false })
      (entered s.id (fresh cfg p) cfg (counted (shutting_down old p)))

-- `restartFromSupervisor`, and what the supervisor does with its error.
unfoldable pub restart_from_supervisor : Supervisor → (Supervisor → Pool → Pool) → Pool → Pool
unfolding restart_entries
restart_from_supervisor s put p =
    restart_entries s (lookup s.id p.agents) (lookup s.id p.configs) put p
