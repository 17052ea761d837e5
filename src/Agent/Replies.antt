-- ===== src/Agent/Replies.antt =====
-- internal/agent/reply_store.go: the questions that wait for a human, by message and by task. A channel is
-- shared, so it is a place in the state; a map is a function. The send after the unlock is part of the call: it
-- takes out the entry before, so no other call reaches that channel.
pub mod Channels
pub mod Listing
pub mod Pending
pub mod Waiting
pub mod Crossing
use agent_claw.Base.{
  ℕ, zero, suc, ◌+◌, String, Bool, true, false, List, [], ◌∷◌, ◌++◌, Option, none, some, ◌==◌, eqb,
  if◌then◌else◌,
}

-- A `chan string` of capacity 1.
pub record Channel : Type 0 where
  pub content : Option String
  pub closed : Bool

-- `replyEntry`, with the number of its channel.
pub record Entry : Type 0 where
  pub ch : ℕ
  pub task_id : String
  pub question_id : String

-- `ReplyStore` and the channels made so far, numbered from 0; and whether a call has panicked, by a send on
-- a closed channel or by closing one again.
pub record Store : Type 0 where
  pub by_msg_id : ℕ → Option Entry
  pub by_task : String → Option (List ℕ)
  pub channels : ℕ → Channel
  pub made : ℕ
  pub panicked : Bool

abbrev pub empty_channel : Channel
empty_channel = record { content = none; closed = false }

-- `NewReplyStore`.
abbrev pub new : Store
new = record {
  by_msg_id = λ msg. none;
  by_task = λ task. none;
  channels = λ ch. empty_channel;
  made = 0;
  panicked = false;
}

-- An assignment to an entry of a map, and of a map by tasks.
unfoldable pub set {ℓ} : {A : Type ℓ} → ℕ → A → (ℕ → A) → ℕ → A
set k a f j = if eqb k j then a else f j

unfoldable pub set_task {ℓ} : {A : Type ℓ} → String → A → (String → A) → String → A
set_task t a f u = if t == u then a else f u

-- The messages of a task: a missing key reads as nil.
unfoldable pub messages_of : Option (List ℕ) → List ℕ
messages_of none = []
messages_of (some msgs) = msgs

-- `if len(...) == 0 { delete }`.
unfoldable pub kept : List ℕ → Option (List ℕ)
kept [] = none
kept (m ∷ msgs) = some (m ∷ msgs)

-- The list without the first occurrence of a message.
unfoldable pub without : ℕ → List ℕ → List ℕ
without msg [] = []
without msg (m ∷ msgs) = let rest = without msg msgs in if eqb msg m then msgs else m ∷ rest

-- The list with the first occurrence replaced.
unfoldable pub replaced : ℕ → ℕ → List ℕ → List ℕ
replaced old msg [] = []
replaced old msg (m ∷ msgs) =
    let rest = replaced old msg msgs in if eqb old m then msg ∷ msgs else m ∷ rest

unfoldable pub replaced_in : ℕ → ℕ → Option (List ℕ) → Option (List ℕ)
unfolding replaced
replaced_in old msg none = none
replaced_in old msg (some msgs) = some (replaced old msg msgs)

-- Takes out a message: of the map, and of the index of a task, which is deleted when it is empty.
unfoldable pub take_out : ℕ → String → Store → Store
unfolding set set_task messages_of kept without
take_out msg task s = record s {
  by_msg_id = set msg none s.by_msg_id;
  by_task = set_task task (kept (without msg (messages_of (s.by_task task)))) s.by_task;
}

filled : String → Channel → Channel
filled answer c = elim c.content [ none ↦ record c { content = some answer } | some old ↦ c ]

-- A send with a default: it is discarded when the channel is full.
unfoldable pub send : ℕ → String → Store → Store
unfolding set filled
send ch answer s =
    if (s.channels ch).closed
    then record s { panicked = true }
    else record s { channels = set ch (filled answer (s.channels ch)) s.channels }

unfoldable pub close : ℕ → Store → Store
unfolding set
close ch s =
    if (s.channels ch).closed
    then record s { panicked = true }
    else record s { channels = set ch (record (s.channels ch) { closed = true }) s.channels }

-- `Register`, which returns the number of the channel that it makes.
unfoldable pub register : ℕ → String → String → Store → ℕ × Store
unfolding set set_task messages_of
register msg task question s = (
  s.made,
  record s {
    by_msg_id =
        set msg (some (record { ch = s.made; task_id = task; question_id = question })) s.by_msg_id;
    by_task = set_task task (some (messages_of (s.by_task task) ++ msg ∷ [])) s.by_task;
    channels = set s.made empty_channel s.channels;
    made = suc s.made;
  },
)

resolve_entry : ℕ → String → Option Entry → Store → Store
unfolding take_out send
resolve_entry msg answer none s = s
resolve_entry msg answer (some e) s = send e.ch answer (take_out msg e.task_id s)

-- `Resolve`.
unfoldable pub resolve : ℕ → String → Store → Store
unfolding resolve_entry
resolve msg answer s = resolve_entry msg answer (s.by_msg_id msg) s

-- A send to the channel of an entry; that of a missing one is nil, and the default is taken.
send_to : Option Entry → String → Store → Store
unfolding send
send_to none answer s = s
send_to (some e) answer s = send e.ch answer s

resolve_first : String → String → Option (List ℕ) → Store → Bool × Store
unfolding send_to set set_task kept
resolve_first task answer none s = (false, s)
resolve_first task answer (some []) s = (false, s)
resolve_first task answer (some (msg ∷ msgs)) s = (
  true,
  send_to (s.by_msg_id msg) answer (record s {
    by_msg_id = set msg none s.by_msg_id;
    by_task = set_task task (kept msgs) s.by_task;
  }),
)

-- `ResolveByTask`.
unfoldable pub resolve_by_task : String → String → Store → Bool × Store
unfolding resolve_first
resolve_by_task task answer s = resolve_first task answer (s.by_task task) s

unregister_entry : ℕ → Option Entry → Store → Store
unfolding take_out close
unregister_entry msg none s = s
unregister_entry msg (some e) s = close e.ch (take_out msg e.task_id s)

-- `UnregisterByMsgID`.
unfoldable pub unregister_by_msg_id : ℕ → Store → Store
unfolding unregister_entry
unregister_by_msg_id msg s = unregister_entry msg (s.by_msg_id msg) s

-- `Unregister`.
unfoldable pub unregister : ℕ → String → Store → Store
unfolding take_out
unregister msg task s = take_out msg task s

move_entry : ℕ → ℕ → String → String → Option Entry → Store → Store
unfolding set set_task replaced_in
move_entry old msg task question none s = s
move_entry old msg task question (some e) s = record s {
  by_msg_id =
      set msg (some (record { ch = e.ch; task_id = task; question_id = question }))
        (set old none s.by_msg_id);
  by_task = set_task task (replaced_in old msg (s.by_task task)) s.by_task;
}

-- `Reregister`.
unfoldable pub reregister : ℕ → ℕ → String → String → Store → Store
unfolding move_entry
reregister old msg task question s = move_entry old msg task question (s.by_msg_id old) s

unfoldable pub is_pending : List ℕ → Bool
is_pending [] = false
is_pending (m ∷ msgs) = true

-- `HasPending`.
unfoldable pub has_pending : String → Store → Bool
unfolding messages_of is_pending
has_pending task s = is_pending (messages_of (s.by_task task))

-- The calls that change the store.
pub data Call : Type 0 where
  registering : ℕ → String → String → Call
  resolving : ℕ → String → Call
  resolving_by_task : String → String → Call
  unregistering_by_msg_id : ℕ → Call
  unregistering : ℕ → String → Call
  reregistering : ℕ → ℕ → String → String → Call

abbrev pub step : Call → Store → Store
step (registering msg task question) s = (register msg task question s).1
step (resolving msg answer) s = resolve msg answer s
step (resolving_by_task task answer) s = (resolve_by_task task answer s).1
step (unregistering_by_msg_id msg) s = unregister_by_msg_id msg s
step (unregistering msg task) s = unregister msg task s
step (reregistering old msg task question) s = reregister old msg task question s

abbrev pub run : List Call → Store → Store
run [] s = s
run (c ∷ calls) s = run calls (step c s)
