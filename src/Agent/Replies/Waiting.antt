-- ===== src/Agent/Replies/Waiting.antt =====
-- `HasPending` and `ResolveByTask` of internal/agent/reply_store.go against the entries alone.
use agent_claw.Base.{
  ℕ, ◌≤◌, ◌≡◌, ◌≢◌, ◌↔◌, refl, ap, sym, subst, ◌∙◌, String, true, false, List, [], ◌∷◌, Option,
  none, some, arith,
}
use agent_claw.Agent.Replies.{
  Entry, Store, new, empty_channel, filled, send, send_to, set, messages_of, resolve_first,
  resolve_by_task, is_pending, has_pending, Call, run,
}
use agent_claw.Agent.Replies.Listing.{count, tally, AreProper, tally-entry, IsListed}
use agent_claw.Agent.Replies.Channels.{IsSound, run-IsSound}
use agent_claw.Agent.Replies.Pending.{count-first, run-IsListed, tally-own-one}

-- What waits for a task, by the entries alone.
abbrev pub Waits : String → Store → Type 0
Waits t s = (m : ℕ) × (e : Entry) × (s.by_msg_id m ≡ some e) × (e.task_id ≡ t)

pending-first : (msgs : List ℕ) → is_pending msgs ≡ true → (m : ℕ) × (1 ≤ count m msgs)
unfolding is_pending
pending-first [] h = absurd (ground (arith, h))
pending-first (m ∷ msgs) h = (m, count-first m msgs)

count-pending : (m : ℕ) (msgs : List ℕ) → 1 ≤ count m msgs → is_pending msgs ≡ true
unfolding is_pending
count-pending m [] h = absurd (omega (arith, h))
count-pending m (k ∷ msgs) h = refl

pending-Waits : (s : Store) (t : String) → IsListed s → (has_pending t s ≡ true) ↔ Waits t s
unfolding has_pending
pending-Waits s t inv = (
  λ h.
      let (m, listed) = pending-first (messages_of (s.by_task t)) h in
      let (e, held, own) = tally-entry t (s.by_msg_id m) (omega (arith, inv.listed t m, listed)) in
      (m, e, held, own),
  λ w.
      count-pending w.0 (messages_of (s.by_task t))
        (omega (arith, inv.listed t w.0, ap (tally t) w.2, tally-own-one t w.1 w.3)),
)

resolved_first :
    (task answer : String) (o : Option (List ℕ)) (s : Store)
    → o ≢ some []
    → (resolve_first task answer o s).0 ≡ is_pending (messages_of o)
unfolding resolve_first is_pending messages_of
resolved_first task answer none s h = refl
resolved_first task answer (some []) s h = absurd (h refl)
resolved_first task answer (some (m ∷ msgs)) s h = refl

-- A question of the task that waited has its answer, in its own channel, and waits no more.
abbrev pub Answered : String → String → Store → Store → Type 0
Answered task answer s u =
    (m : ℕ) × (e : Entry) × (s.by_msg_id m ≡ some e)
    × (e.task_id ≡ task)
    × (u.channels e.ch ≡ record { content = some answer; closed = false })
    × (u.by_msg_id m ≡ none)

first-Answered :
    (task answer : String) (m : ℕ) (msgs : List ℕ) (e : Entry) (s : Store)
    → s.by_msg_id m ≡ some e
    → e.task_id ≡ task
    → s.channels e.ch ≡ empty_channel
    → Answered task answer s (resolve_first task answer (some (m ∷ msgs)) s).1
unfolding resolve_first send_to send set filled
first-Answered task answer m msgs e s held own free =
    (m, e, held, own, rw (held, free) (ground arith), rw (held, free) (ground arith))

resolved-Answered :
    (task answer : String) (s : Store) (o : Option (List ℕ))
    → IsSound s
    → IsListed s
    → s.by_task task ≡ o
    → (resolve_first task answer o s).0 ≡ true
    → Answered task answer s (resolve_first task answer o s).1
unfolding resolve_first messages_of
resolved-Answered task answer s none sound inv here h = absurd (ground (arith, h))
resolved-Answered task answer s (some []) sound inv here h = absurd (ground (arith, h))
resolved-Answered task answer s (some (m ∷ msgs)) sound inv here h =
    let listed : 1 ≤ count m (messages_of (s.by_task task)) =
      subst (λ o. 1 ≤ count m (messages_of o)) (sym here) (count-first m msgs) in
    let (e, held, own) =
      tally-entry task (s.by_msg_id m) (omega (arith, inv.listed task m, listed)) in
    first-Answered task answer m msgs e s held own (sound.is_empty m e held)

-- After calls of a new store that register and re-register a question only under a number that no entry has, and
-- withdraw or re-register an entry only for its own task: `HasPending` is true of a task exactly when some entry
-- waits for it; `ResolveByTask` returns the same, and it returns true exactly when an entry of the task that
-- waited then has the answer in its channel and waits no more.
pub has_pending-Waits :
    (calls : List Call) (task answer : String)
    → AreProper calls new
    → let s = run calls new in
      ((has_pending task s ≡ true) ↔ Waits task s)
      × ((resolve_by_task task answer s).0 ≡ has_pending task s)
      × (((resolve_by_task task answer s).0 ≡ true)
          ↔ Answered task answer s (resolve_by_task task answer s).1)
unfolding resolve_by_task has_pending
has_pending-Waits calls task answer proper =
    let s = run calls new in
    let inv = run-IsListed calls proper in
    let waits = pending-Waits s task inv in
    let same = resolved_first task answer _ s (inv.not_empty task) in
    (
      waits,
      same,
      (
        resolved-Answered task answer s _ (run-IsSound calls) inv refl,
        λ a. same ∙ waits.1 (a.0, a.1, a.2, a.3),
      ),
    )
