-- ===== src/Queue/Ready.antt =====
-- `findReady` of internal/queue/queue.go: the scan for the best task that is ready.
pub mod Best
use agent_claw.Base.{
  ℕ, suc, ◌*◌, String, Bool, true, false, not, ◌&&◌, List, [], ◌∷◌, Option, none, some, Dict,
  lookup, insert, ltb, eqb, length, if◌then◌else◌, ◌==◌,
}
use agent_claw.Queue.Types.{Task, Item, Key, Queue, holds, get_elem?}

-- The check of the dependencies.
unfoldable pub deps_ok : Dict Bool → List String → Bool
deps_ok done [] = true
deps_ok done (dep ∷ deps) =
    let others = deps_ok done deps in if holds (lookup dep done) then others else false

-- `bestItem`, with the priority it has, and the number of stale candidates.
pub record Scan : Type 0 where
  pub best : Option (Key × Item)
  pub stale : ℕ

-- Whether a priority beats the best one so far.
beats : ℕ → Option (Key × Item) → Bool
beats priority none = true
beats priority (some (k, it)) = ltb it.task.priority priority

-- One candidate: stale, not ready, not better, or the new best.
consider : Dict Bool → Key → Item → Option ℕ → Scan → Scan
unfolding beats deps_ok
consider done k it none s = record s { stale = suc s.stale }
consider done k it (some place) s =
    if deps_ok done it.task.depends_on
    then (if beats it.task.priority s.best then record s { best = some (k, it) } else s)
    else s

consider_at : Dict Bool → Key → Option Item → Scan → Scan
unfolding consider
consider_at done k none s = s
consider_at done k (some it) s = consider done k it it.index s

-- The loop over the candidates. A key is the address of an item, so the store has it.
unfoldable pub scan : Dict Bool → List Item → List Key → Scan → Scan
unfolding consider_at
scan done items [] s = s
scan done items (k ∷ ks) s = scan done items ks (consider_at done k (get_elem? items k) s)

abbrev pub scan_start : Scan
scan_start = record { best = none; stale = 0 }

or_nil : Option (List Key) → List Key
or_nil none = []
or_nil (some ks) = ks

-- `candidates`.
unfoldable pub candidates : String → Queue → List Key
unfolding or_nil
candidates role q = if role == "" then q.heap else or_nil (lookup role q.role_index)
