-- ===== src/Waiter/Runs.antt =====
-- Runs of the waiter of internal/infra/task/waiter.go.
use agent_claw.Base.{
  ℕ, ◌≡◌, ◌≢◌, ◌<◌, ◌≤◌, refl, inl, inr, String, Bool, true, false, ◌||◌, ◌∙◌, List, [], ◌∷◌,
  Option, none, some, ◌==◌, eqb, if◌then◌else◌, lookup, delete, lookup-insert, lookup-delete,
  Bool-cases, arith,
}
use agent_claw.Domain.Types.{Event, TaskResult}
use agent_claw.Port.{Result, ok, err}
use agent_claw.Waiter.{
  EventWaiter, new_event_waiter, send, result_of, failure_of, handle_done, handle_failed, register,
  stop, stopped_text, signal_waiters, ids_of, received, wait,
}

-- What callers and the bus do.
pub data Op : Type 0 where
  registers : String → Op
  waits : Option String → String → ℕ → Op
  completes : Event → Op
  fails : Event → Op
  stops : Op

unfoldable pub apply : Op → EventWaiter → EventWaiter
unfolding register wait handle_done handle_failed stop
apply (registers id) w = (register id w).1
apply (waits cancelled id c) w = (wait cancelled id c w).1
apply (completes evt) w = handle_done evt w
apply (fails evt) w = handle_failed evt w
apply stops w = stop w

unfoldable pub run : List Op → EventWaiter → EventWaiter
unfolding apply
run [] w = w
run (op ∷ ops) w = run ops (apply op w)

-- An operation that is no registration and no wait of this task, nor a wait on this channel.
abbrev pub Spares : String → ℕ → Op → Type 0
Spares id c (registers t) = t ≢ id
Spares id c (waits cancelled t d) = (t ≢ id) × (d ≢ c)
Spares id c (completes evt) = Unit
Spares id c (fails evt) = Unit
Spares id c stops = Unit

is_stop : Op → Bool
is_stop stops = true
is_stop _ = false

-- Whether the waiter is stopped by some operation.
unfoldable pub has_stop : List Op → Bool
unfolding is_stop
has_stop [] = false
has_stop (op ∷ ops) = let rest = has_stop ops in is_stop op || rest

-- The end of a task that the first event of it tells, or the error that the waiter stops, where that comes first.
unfoldable pub first_end : String → List Op → Option (Result TaskResult)
first_end id [] = none
first_end id (registers t ∷ ops) = first_end id ops
first_end id (waits cancelled t d ∷ ops) = first_end id ops
first_end id (completes evt ∷ ops) =
    let rest = first_end id ops in if evt.task_id == id then some (ok (result_of evt)) else rest
first_end id (fails evt ∷ ops) =
    let rest = first_end id ops in if evt.task_id == id then some (err (failure_of evt)) else rest
first_end id (stops ∷ ops) = some (err (stopped_text id))

-- What all operations keep: a channel of an entry was made, and one that was not made is empty.
pub record IsFresh (w : EventWaiter) : Type 0 where
  pub known : (t : String) (d : ℕ) → lookup t w.waiters ≡ some d → d < w.made
  pub empty : (d : ℕ) → w.made ≤ d → w.channels d ≡ none

send-IsFresh :
    (t : String) (o : Option ℕ) (r : Result TaskResult) (w : EventWaiter)
    → lookup t w.waiters ≡ o
    → IsFresh w
    → IsFresh (send o r w)
unfolding send
send-IsFresh t none r w e inv = inv
send-IsFresh t (some c) r w e inv = record {
  known = inv.known;
  empty = λ d h. elim (Bool-cases (eqb c d)) [
    | inl same ↦ absurd (ground (arith, same, h, inv.known t c e))
    | inr other ↦ rw other (inv.empty d h)
  ];
}

signalled-IsFresh :
    (ids : List String) (w : EventWaiter) → IsFresh w → IsFresh (signal_waiters ids w)
unfolding signal_waiters
signalled-IsFresh [] w inv = inv
signalled-IsFresh (t ∷ ids) w inv = signalled-IsFresh ids _ (send-IsFresh t _ _ w refl inv)

delete_known :
    (id : String) (w : EventWaiter)
    → IsFresh w
    → (t : String) (d : ℕ) → lookup t (delete id w.waiters) ≡ some d
    → d < w.made
delete_known id w inv t d h = elim (Bool-cases (id == t)) [
  | inl e ↦ absurd (ground (arith, h, lookup-delete id t w.waiters, e))
  | inr e ↦ inv.known t d (ground (arith, h, lookup-delete id t w.waiters, e))
]

received-IsFresh :
    (id : String) (c : ℕ) (o : Option (Result TaskResult)) (w : EventWaiter)
    → IsFresh w
    → IsFresh (received id c o w).1
unfolding received
received-IsFresh id c none w inv = inv
received-IsFresh id c (some r) w inv = record {
  known = delete_known id w inv;
  empty = λ d h. elim (Bool-cases (eqb c d)) [
    | inl same ↦ rw same refl
    | inr other ↦ rw other (inv.empty d h)
  ];
}

-- A property of both branches of `register`.
pub register_cases :
    (P : EventWaiter → Type 0) (b : Bool) (o : Option ℕ) (w v : EventWaiter)
    → P w
    → P v
    → let r : Option ℕ × EventWaiter = if b then (none, w) else (o, v) in P r.1
register_cases P true o w v p q = p
register_cases P false o w v p q = q

registered-IsFresh : (id : String) (w : EventWaiter) → IsFresh w → IsFresh (register id w).1
unfolding register
registered-IsFresh id w inv = register_cases IsFresh w.closed _ w _ inv (record {
  known = λ t d h. elim (Bool-cases (id == t)) [
    | inl s ↦ ground (arith, h, lookup-insert id t w.made w.waiters, s)
    | inr s ↦ ground (arith, h, lookup-insert id t w.made w.waiters, s, inv.known t d)
  ];
  empty = λ d h. inv.empty d (omega (arith, h));
})

apply-IsFresh : (op : Op) (w : EventWaiter) → IsFresh w → IsFresh (apply op w)
unfolding apply wait handle_done handle_failed stop
apply-IsFresh (registers id) w inv = registered-IsFresh id w inv
apply-IsFresh (waits none id c) w inv = received-IsFresh id c (w.channels c) w inv
apply-IsFresh (waits (some m) id c) w inv = record {
  known = delete_known id w inv;
  empty = inv.empty;
}
apply-IsFresh (completes evt) w inv = send-IsFresh evt.task_id _ _ w refl inv
apply-IsFresh (fails evt) w inv = send-IsFresh evt.task_id _ _ w refl inv
apply-IsFresh stops w inv =
    signalled-IsFresh (ids_of w.waiters) _ (record { known = inv.known; empty = inv.empty })

run-IsFresh : (ops : List Op) (w : EventWaiter) → IsFresh w → IsFresh (run ops w)
unfolding run
run-IsFresh [] w inv = inv
run-IsFresh (op ∷ ops) w inv = run-IsFresh ops (apply op w) (apply-IsFresh op w inv)

pub run-new-IsFresh : (ops : List Op) → IsFresh (run ops new_event_waiter)
unfolding lookup
run-new-IsFresh ops =
    run-IsFresh ops new_event_waiter
      (record { known = λ t d h. ground (arith, h); empty = λ d h. refl })

received-closed :
    (t : String) (d : ℕ) (o : Option (Result TaskResult)) (w : EventWaiter)
    → (received t d o w).1.closed ≡ w.closed
unfolding received
received-closed t d none w = refl
received-closed t d (some r) w = refl

sent-closed :
    (o : Option ℕ) (r : Result TaskResult) (w : EventWaiter) → (send o r w).closed ≡ w.closed
unfolding send
sent-closed none r w = refl
sent-closed (some d) r w = refl

signalled-closed : (ids : List String) (w : EventWaiter) → (signal_waiters ids w).closed ≡ w.closed
unfolding signal_waiters
signalled-closed [] w = refl
signalled-closed (t ∷ ids) w = signalled-closed ids _ ∙ sent-closed _ _ w

registered-closed : (t : String) (w : EventWaiter) → (register t w).1.closed ≡ w.closed
unfolding register
registered-closed t w = register_cases (λ v. v.closed ≡ w.closed) w.closed _ w _ refl refl

-- Nothing but `Stop` closes the waiter, and nothing opens it again.
apply-closed : (op : Op) (w : EventWaiter) → (apply op w).closed ≡ (is_stop op || w.closed)
unfolding apply wait handle_done handle_failed stop is_stop
apply-closed (registers t) w = registered-closed t w
apply-closed (waits none t d) w = received-closed t d (w.channels d) w
apply-closed (waits (some m) t d) w = refl
apply-closed (completes evt) w = sent-closed _ _ w
apply-closed (fails evt) w = sent-closed _ _ w
apply-closed stops w = signalled-closed (ids_of w.waiters) (record w { closed = true })

pub run-closed : (ops : List Op) (w : EventWaiter) → (run ops w).closed ≡ (w.closed || has_stop ops)
unfolding run has_stop
run-closed [] w = ground arith
run-closed (op ∷ ops) w = ground (arith, run-closed ops (apply op w), apply-closed op w)
