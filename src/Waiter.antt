-- ===== src/Waiter.antt =====
-- internal/infra/task/waiter.go: callers that wait for the event that ends their task. A channel of capacity 1 is
-- a number, and the state holds what it buffers.
pub mod Runs
pub mod Awaits
pub mod Delivery
use agent_claw.Base.{
  ℕ, zero, suc, String, Bool, true, false, List, [], ◌∷◌, Option, none, some, ◌⧺◌, ◌==◌, eqb,
  if◌then◌else◌, Dict, lookup, insert, delete,
}
use agent_claw.Base.Float.{of_nat}
use agent_claw.Domain.Types.{Event, TaskResult}
use agent_claw.Port.{Result, ok, err}

-- `EventWaiter`, with the channels and how many were made.
pub record EventWaiter : Type 0 where
  pub waiters : Dict ℕ
  pub closed : Bool
  pub made : ℕ
  pub channels : ℕ → Option (Result TaskResult)

-- `NewEventWaiter`.
abbrev pub new_event_waiter : EventWaiter
new_event_waiter = record { waiters = []; closed = false; made = 0; channels = λ c. none }

-- A send that is dropped when the channel is full.
unfoldable pub filled : Result TaskResult → Option (Result TaskResult) → Option (Result TaskResult)
filled r none = some r
filled r (some old) = some old

unfoldable pub send : Option ℕ → Result TaskResult → EventWaiter → EventWaiter
unfolding filled
send none r w = w
send (some c) r w = record w {
  channels = λ d. if eqb c d then filled r (w.channels d) else w.channels d;
}

-- A missing key of the payload reads as the empty text.
text_at : Option String → String
text_at none = ""
text_at (some s) = s

unfoldable pub result_of : Event → TaskResult
unfolding text_at
result_of evt = record {
  task_id = evt.task_id;
  output = text_at (lookup "output" evt.payload);
  artifacts = [];
  input_tokens = 0;
  output_tokens = 0;
  thinking_tokens = 0;
  cost_usd = of_nat 0;
  duration_ms = 0;
  model_used = evt.model;
}

unfoldable pub reason_of : Event → String
unfolding text_at
reason_of evt =
    let reason = text_at (lookup "reason" evt.payload) in
    if reason == "" then text_at (lookup "message" evt.payload) else reason

unfoldable pub failure_of : Event → String
unfolding reason_of
failure_of evt = "task " ⧺ evt.task_id ⧺ " failed: " ⧺ reason_of evt

-- `handleDone` and `handleFailed`. The lookup and the send are one step here: a send to a channel that was found
-- earlier is the same as one at that time, since only one wait reads the channel.
unfoldable pub handle_done : Event → EventWaiter → EventWaiter
handle_done evt w = send (lookup evt.task_id w.waiters) (ok (result_of evt)) w

unfoldable pub handle_failed : Event → EventWaiter → EventWaiter
handle_failed evt w = send (lookup evt.task_id w.waiters) (err (failure_of evt)) w

-- `RegisterAndWait` up to the function that it returns: the channel, or none when the waiter is stopped.
unfoldable pub register : String → EventWaiter → Option ℕ × EventWaiter
register task_id w =
    if w.closed
    then (none, w)
    else (some w.made, record w { waiters = insert task_id w.made w.waiters; made = suc w.made })

unfoldable pub received :
    String → ℕ → Option (Result TaskResult) → EventWaiter → Option (Result TaskResult) × EventWaiter
received task_id c none w = (none, w)
received task_id c (some r) w = (
  some r,
  record w {
    waiters = delete task_id w.waiters;
    channels = λ d. if eqb c d then none else w.channels d;
  },
)

-- The wait itself, on a context that is done with an error or on the channel; none when neither is ready and the
-- wait goes on. Where both are ready Go takes any.
unfoldable pub wait :
    Option String → String → ℕ → EventWaiter → Option (Result TaskResult) × EventWaiter
unfolding received
wait (some m) task_id c w = (some (err m), record w { waiters = delete task_id w.waiters })
wait none task_id c w = received task_id c (w.channels c) w

-- The function that `RegisterAndWait` returns, for its channel.
unfoldable pub wait_on :
    Option String → String → Option ℕ → EventWaiter → Option (Result TaskResult) × EventWaiter
unfolding wait
wait_on cancelled task_id none w = (some (err "waiter is stopped"), w)
wait_on cancelled task_id (some c) w = wait cancelled task_id c w

unfoldable pub stopped_text : String → String
stopped_text task_id = "waiter stopped: task " ⧺ task_id ⧺ " will not receive events"

-- The channels of these tasks are told that the waiter stops.
unfoldable pub signal_waiters : List String → EventWaiter → EventWaiter
unfolding send
signal_waiters [] w = w
signal_waiters (task_id ∷ ids) w =
    signal_waiters ids (send (lookup task_id w.waiters) (err (stopped_text task_id)) w)

unfoldable pub ids_of : Dict ℕ → List String
ids_of [] = []
ids_of (entry ∷ waiters) = entry.0 ∷ ids_of waiters

-- `Stop`; that it ends the subscriptions is not kept, and an event may still be handled after it.

unfoldable pub stop : EventWaiter → EventWaiter
unfolding signal_waiters ids_of
stop w = signal_waiters (ids_of w.waiters) (record w { closed = true })
