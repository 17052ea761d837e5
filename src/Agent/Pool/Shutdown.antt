-- ===== src/Agent/Pool/Shutdown.antt =====
-- `ShutdownAll`, `SetStatus` and the lookups of internal/agent/pool.go.
use agent_claw.Base.{
  String, Bool, true, false, not, ◌&&◌, List, [], ◌∷◌, ◌++◌, Option, none, some, ◌==◌,
  if◌then◌else◌, Dict, lookup,
}
use agent_claw.Agent.Pool.{Agent, shut_down, status_set, Pool, close_ch}

-- The stop channels of `ShutdownAll`, closed in the order of the ids, which is any.
unfoldable pub signal_all : List String → Pool → Pool
unfolding close_ch
signal_all [] p = p
signal_all (id ∷ ids) p = signal_all ids (close_ch (lookup id p.stop_ch) p)

unfoldable pub shut_down_if : Option Agent → Pool → Pool
shut_down_if none p = p
shut_down_if (some a) p = record p { trace = shut_down a ∷ p.trace }

-- The end of `ShutdownAll`, after its waits, which the context may cut short.
unfoldable pub shut_down_each : Dict (Option Agent) → Pool → Pool
unfolding shut_down_if
shut_down_each [] p = p
shut_down_each (entry ∷ agents) p = shut_down_each agents (shut_down_if entry.1 p)

-- The ids of the agents.
unfoldable pub ids_of : Dict (Option Agent) → List String
ids_of [] = []
ids_of (entry ∷ agents) = entry.0 ∷ ids_of agents

-- `SetStatus`: the status is the agent's own, and an agent of another type than `BaseAgent` keeps it.
unfoldable pub set_found : (Agent → Bool) → String → Option (Option Agent) → Pool → Pool
set_found is_base s none p = p
set_found is_base s (some none) p = p
set_found is_base s (some (some a)) p =
    if is_base a then record p { trace = status_set a s ∷ p.trace } else p

unfoldable pub set_status : (Agent → Bool) → String → String → Pool → Pool
unfolding set_found
set_status is_base id s p = set_found is_base s (lookup id p.agents) p

-- `StatusAll`; an agent that is killed is passed over.
unfoldable pub status_all : (Agent → String) → Dict (Option Agent) → Dict String
status_all status [] = []
status_all status ((id, none) ∷ agents) = status_all status agents
status_all status ((id, some a) ∷ agents) = (id, status a) ∷ status_all status agents

-- `Get`: the agent, which is nil while it is killed, and whether there is an entry.
unfoldable pub get : String → Pool → Option (Option Agent)
get id p = lookup id p.agents

-- `All`, with the nil of an agent that is killed.
unfoldable pub all : Dict (Option Agent) → List (Option Agent)
all [] = []
all (entry ∷ agents) = entry.1 ∷ all agents

has_role : String → Option Agent → Bool
has_role role none = false
has_role role (some a) = a.config.role == role

status_is : (Agent → Bool) → Option Agent → Bool
status_is idle none = false
status_is idle (some a) = idle a

same : Bool → Bool → Bool
same true b = b
same false b = not b

-- The agents of a role that are idle, or that are not, in the order of the map.
unfoldable pub of_role : (Agent → Bool) → String → Bool → Dict (Option Agent) → List (Option Agent)
unfolding has_role status_is same
of_role idle role wanted [] = []
of_role idle role wanted (entry ∷ agents) =
    let rest = of_role idle role wanted agents in
    if has_role role entry.1 && same wanted (status_is idle entry.1) then entry.1 ∷ rest else rest

-- `GetByRole`.
unfoldable pub get_by_role : (Agent → Bool) → String → Pool → List (Option Agent)
unfolding of_role
get_by_role idle role p = of_role idle role true p.agents ++ of_role idle role false p.agents
