-- ===== src/Agent/Pool/Overlaps.antt =====
-- Calls on an agent that is being killed.
use agent_claw.Base.{
  ℕ, ◌≡◌, refl, sym, ap, ◌∙◌, inl, inr, String, true, Option, none, some, lookup, lookup-insert,
  Bool-cases, eq_refl, arith,
}
use agent_claw.Agent.Pool.{
  Config, Agent, Supervisor, Pool, Env, is_closed, close_ch, kill_found, kill_start, tick_found,
  tick,
}

closed-after : (c : ℕ) (p : Pool) → is_closed c (close_ch (some c) p).closed ≡ true
unfolding close_ch is_closed
closed-after c p = elim (Bool-cases (is_closed c p.closed)) [
  | inl was ↦ rw was was
  | inr not_yet ↦ rw not_yet (ground arith)
]

-- Closing a channel twice panics, also where it is nil.
closed-twice :
    (o : Option ℕ) (p q : Pool) → q.closed ≡ (close_ch o p).closed → (close_ch o q).panicked ≡ true
unfolding close_ch
closed-twice none p q h = refl
closed-twice (some c) p q h = rw (ap (is_closed c) h ∙ closed-after c p) refl

close_ch-stop_ch : (o : Option ℕ) (p : Pool) → (close_ch o p).stop_ch ≡ p.stop_ch
unfolding close_ch
close_ch-stop_ch none p = refl
close_ch-stop_ch (some c) p = elim (Bool-cases (is_closed c p.closed)) [
  | inl h ↦ rw h refl
  | inr h ↦ rw h refl
]

found-panics :
    (id : String) (again : Option Config) (q : Pool) (x : Option Agent)
    → lookup id q.agents ≡ some x
    → (close_ch (lookup id q.stop_ch) q).panicked ≡ true
    → (kill_start id again q).1.panicked ≡ true
unfolding kill_start kill_found
found-panics id again q x here panics = rw here panics

-- What a kill that has begun leaves for the id: a nil agent and the same stop channel, closed.
module _ (id : String) (again : Option Config) (p : Pool) (a : Option Agent)
    (here : lookup id p.agents ≡ some a) where
  pub begun-agent : lookup id (kill_start id again p).1.agents ≡ some none
  unfolding kill_start kill_found
  begun-agent =
      rw here
        (rw (lookup-insert id id none (close_ch (lookup id p.stop_ch) p).agents, eq_refl id) refl)

  begun-stop : (kill_start id again p).1.stop_ch ≡ p.stop_ch
  unfolding kill_start kill_found
  begun-stop = rw here (close_ch-stop_ch (lookup id p.stop_ch) p)

  begun-closed : (kill_start id again p).1.closed ≡ (close_ch (lookup id p.stop_ch) p).closed
  unfolding kill_start kill_found
  begun-closed = rw here refl

-- While an agent is killed, a second kill or restart of it panics, and so does a tick of its supervisor that
-- comes before the supervisor has seen the stop.
pub overlap_panics :
    (e : Env) (id : String) (again again' : Option Config) (p : Pool) (a : Option Agent)
    (s : Supervisor) (put : Supervisor → Pool → Pool)
    → lookup id p.agents ≡ some a
    → s.id ≡ id
    → let q = (kill_start id again p).1 in
      ((kill_start id again' q).1.panicked ≡ true) × ((tick e s put q).panicked ≡ true)
unfolding tick tick_found
overlap_panics e id again again' p a s put here own =
    let q = (kill_start id again p).1 in
    let stop = begun-stop id again p a here in
    (
      found-panics id again' q none (begun-agent id again p a here) (
          closed-twice (lookup id q.stop_ch) p q (
            begun-closed id again p a here
            ∙ ap (λ d. (close_ch (lookup id d) p).closed) (sym stop))),
      rw (ap (λ i. lookup i q.agents) own ∙ begun-agent id again p a here) refl,
    )
