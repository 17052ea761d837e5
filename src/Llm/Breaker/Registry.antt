-- ===== src/Llm/Breaker/Registry.antt =====
-- The registry of internal/llm/breaker.go keeps the providers apart.
use agent_claw.Base.{
  ◌≡◌, String, ◌==◌, eq_iff, Option, none, some, Dict, lookup, insert, lookup-insert, arith,
  if◌then◌else◌, Option-cases, inl, inr,
}
use agent_claw.Llm.Breaker.{Breaker, get_breaker, new_breaker, default_cooldown}

abbrev pub or_new : Option Breaker → Breaker
or_new none = new_breaker 5 default_cooldown
or_new (some b) = b

-- `get` returns the provider's breaker, or a new one that opens at 5 failures for 60 seconds. It
-- stores what it returns, and leaves the breaker of every other provider as it was.
pub get_breaker_lem :
    (p q : String) (m : Dict Breaker)
    → ((get_breaker p m).0 ≡ or_new (lookup p m))
      × (lookup q (get_breaker p m).1 ≡ (if p == q then some (or_new (lookup p m)) else lookup q m))
unfolding get_breaker
get_breaker_lem p q m = elim (Option-cases (lookup p m)) [
  | inl e ↦ rw e ground (arith, lookup-insert p q (new_breaker 5 default_cooldown) m)
  | inr (b, e) ↦ rw e ground (arith, eq_iff p q)
]

-- A breaker stored after a `get` of its provider.
pub get_breaker-insert :
    (p q : String) (b : Breaker) (m : Dict Breaker)
    → or_new (lookup q (insert p b (get_breaker p m).1))
      ≡ (if p == q then b else or_new (lookup q m))
get_breaker-insert p q b m =
    ground (arith, get_breaker_lem p q m, lookup-insert p q b (get_breaker p m).1)
