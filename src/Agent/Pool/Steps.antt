-- ===== src/Agent/Pool/Steps.antt =====
-- The steps of the pool and its supervisors in any order, and what it means that its entries agree.
use agent_claw.Base.{
  ℕ, ◌≡◌, refl, sym, ap, ◌∙◌, inl, inr, String, Bool, true, false, List, ◌∷◌, ◌++◌, Option, none,
  some, ◌==◌, Dict, lookup, insert, delete, lookup-insert, lookup-delete, Bool-cases, eq_iff,
}
use agent_claw.Agent.Pool.{
  Config, Agent, Supervisor, Waiting, Pool, new_pool, Env, is_closed, close_ch, entered, spawn,
  kill_start, restart_start, removed, kill_end, exit, tick, restart_from_supervisor,
}
use agent_claw.Agent.Pool.Shutdown.{signal_all, shut_down_each, ids_of, set_status}

-- The pool with a supervisor back at its place.
abbrev pub put_back : List Supervisor → List Supervisor → Supervisor → Pool → Pool
put_back before after s p = record p { supervisors = before ++ s ∷ after }

-- One step of any caller or supervisor: a call, a call that goes on when its supervisor is done, a
-- supervisor that sees its stop, ticks, or restarts an agent, a status that is set, or the two ends of a shutdown of all.
pub data Step (e : Env) : Pool → Pool → Type 0 where
  spawning : (a : Agent) (p : Pool) → Step e p (spawn a p).1
  killing : (id : String) (p : Pool) → Step e p (kill_start id none p).1
  restarting : (id : String) (p : Pool) → Step e p (restart_start id p).1
  woken :
      (p : Pool) (before after : List Waiting) (w : Waiting) (done : ℕ)
      → p.waiting ≡ before ++ w ∷ after
      → w.done ≡ some done
      → is_closed done p.closed ≡ true
      → Step e p (kill_end w (record p { waiting = before ++ after }))
  stopped :
      (p : Pool) (before after : List Supervisor) (s : Supervisor)
      → p.supervisors ≡ before ++ s ∷ after
      → s.saw_failure ≡ false
      → is_closed s.stop p.closed ≡ true
      → Step e p (exit s (record p { supervisors = before ++ after }))
  ticked :
      (p : Pool) (before after : List Supervisor) (s : Supervisor)
      → p.supervisors ≡ before ++ s ∷ after
      → s.saw_failure ≡ false
      → Step e p (tick e s (put_back before after) (record p { supervisors = before ++ after }))
  renewed :
      (p : Pool) (before after : List Supervisor) (s : Supervisor)
      → p.supervisors ≡ before ++ s ∷ after
      → s.saw_failure ≡ true
      → Step e p (
          restart_from_supervisor s
            (put_back before after)
            (record p { supervisors = before ++ after }))
  setting :
      (is_base : Agent → Bool) (id s : String) (p : Pool) → Step e p (set_status is_base id s p)
  signalled : (p : Pool) → Step e p (signal_all (ids_of p.agents) p)
  shut : (p : Pool) → Step e p (shut_down_each p.agents p)

-- What the steps reach from a new pool.
pub data Reaches (e : Env) : Pool → Type 0 where
  from_new : Reaches e new_pool
  by_step : (p q : Pool) → Reaches e p → Step e p q → Reaches e q

abbrev pub present {ℓ} : {A : Type ℓ} → Option A → Bool
present none = false
present (some a) = true

-- An id has all four entries of the pool, or none of them.
pub record IsAligned (p : Pool) : Type 0 where
  pub has_config : (id : String) → present (lookup id p.configs) ≡ present (lookup id p.agents)
  pub has_stop : (id : String) → present (lookup id p.stop_ch) ≡ present (lookup id p.agents)
  pub has_done : (id : String) → present (lookup id p.done_ch) ≡ present (lookup id p.agents)

-- Entries that are set in two maps, deleted from both, or set where one was.
module _ {A B : Type 0} (m : Dict A) (n : Dict B) (id : String) where
  pub both-insert :
      (x : A) (y : B)
      → ((t : String) → present (lookup t m) ≡ present (lookup t n))
      → (t : String) → present (lookup t (insert id x m)) ≡ present (lookup t (insert id y n))
  both-insert x y h t =
      rw (lookup-insert id t x m, lookup-insert id t y n)
        (elim (Bool-cases (id == t)) [ inl e ↦ rw e refl | inr d ↦ rw d (h t) ])

  pub both-delete :
      ((t : String) → present (lookup t m) ≡ present (lookup t n))
      → (t : String) → present (lookup t (delete id m)) ≡ present (lookup t (delete id n))
  both-delete h t =
      rw (lookup-delete id t m, lookup-delete id t n)
        (elim (Bool-cases (id == t)) [ inl e ↦ rw e refl | inr d ↦ rw d (h t) ])

  pub insert-over :
      (y : B)
      → present (lookup id n) ≡ true
      → ((t : String) → present (lookup t m) ≡ present (lookup t n))
      → (t : String) → present (lookup t m) ≡ present (lookup t (insert id y n))
  insert-over y there h t = rw (lookup-insert id t y n) (elim (Bool-cases (id == t)) [
    | inl e ↦ rw e (h t ∙ ap (λ u. present (lookup u n)) (sym ((eq_iff id t).0 e)) ∙ there)
    | inr d ↦ rw d (h t)
  ])

pub close_ch-IsAligned : (o : Option ℕ) (p : Pool) → IsAligned p → IsAligned (close_ch o p)
unfolding close_ch
close_ch-IsAligned none p inv = record {
  has_config = inv.has_config;
  has_stop = inv.has_stop;
  has_done = inv.has_done;
}
close_ch-IsAligned (some c) p inv = elim (Bool-cases (is_closed c p.closed)) [
  | inl h ↦
      rw h
        (record { has_config = inv.has_config; has_stop = inv.has_stop; has_done = inv.has_done })
  | inr h ↦
      rw h
        (record { has_config = inv.has_config; has_stop = inv.has_stop; has_done = inv.has_done })
]

pub close_ch-agents : (o : Option ℕ) (p : Pool) → (close_ch o p).agents ≡ p.agents
unfolding close_ch
close_ch-agents none p = refl
close_ch-agents (some c) p = elim (Bool-cases (is_closed c p.closed)) [
  | inl h ↦ rw h refl
  | inr h ↦ rw h refl
]

pub entered-IsAligned :
    (id : String) (a : Agent) (cfg : Config) (p : Pool)
    → IsAligned p
    → IsAligned (entered id a cfg p)
unfolding entered
entered-IsAligned id a cfg p inv = record {
  has_config = both-insert p.configs p.agents id cfg (some a) inv.has_config;
  has_stop = both-insert p.stop_ch p.agents id p.made (some a) inv.has_stop;
  has_done = both-insert p.done_ch p.agents id _ (some a) inv.has_done;
}

pub removed-IsAligned : (id : String) (p : Pool) → IsAligned p → IsAligned (removed id p)
unfolding removed
removed-IsAligned id p inv = record {
  has_config = both-delete p.configs p.agents id inv.has_config;
  has_stop = both-delete p.stop_ch p.agents id inv.has_stop;
  has_done = both-delete p.done_ch p.agents id inv.has_done;
}
