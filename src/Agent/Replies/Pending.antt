-- ===== src/Agent/Replies/Pending.antt =====
-- The index by tasks lists the questions that wait, each once.
use agent_claw.Base.{
  ℕ, ◌≤◌, ◌≡◌, ◌≢◌, inl, inr, refl, ap, subst, ◌∙◌, String, List, [], ◌∷◌, ◌++◌, Option, none, some,
  eq_iff, eq_refl, Bool-cases, arith,
}
use mathlib.Core.Option.{none-ne-some}
use agent_claw.Agent.Replies.{
  Entry, Store, new, set, set_task, messages_of, kept, without, replaced, replaced_in, take_out,
  send, close, register, resolve, resolve_entry, send_to, resolve_first, resolve_by_task,
  unregister_entry, unregister_by_msg_id, unregister, move_entry, reregister, Call, registering,
  resolving, resolving_by_task, unregistering_by_msg_id, unregistering, reregistering, step, run,
}
use agent_claw.Agent.Replies.Listing.{
  count, count-append, count-without, count-replaced, messages_of-kept, kept-ne-empty,
  messages_of-replaced_in, tally, OwnTask, IsProper, AreProper, tally-own, tally_le_one,
  tally-other, put-IsListed, tally-none, tally-some, tally-at, IsListed,
}

append-ne-empty : (msgs : List ℕ) (m : ℕ) → some (msgs ++ m ∷ []) ≢ some []
append-ne-empty [] m h = ground (arith, h)
append-ne-empty (k ∷ msgs) m h = ground (arith, h)

replaced_in-ne-empty :
    (old msg : ℕ) (o : Option (List ℕ)) → o ≢ some [] → replaced_in old msg o ≢ some []
unfolding replaced_in replaced
replaced_in-ne-empty old msg none k h = k h
replaced_in-ne-empty old msg (some []) k h = k h
replaced_in-ne-empty old msg (some (m ∷ msgs)) k h = ground (arith, h)

pub tally-own-one : (task : String) (e : Entry) → e.task_id ≡ task → tally task (some e) ≡ 1
tally-own-one task e h = ground (arith, eq_iff e.task_id task, h)

module _ (s : Store) (inv : IsListed s) where
  take_out-IsListed :
      (msg : ℕ) (task : String) → OwnTask msg task s → IsListed (take_out msg task s)
  unfolding take_out
  take_out-IsListed msg task own =
      let msgs : List ℕ = messages_of (s.by_task task) in
      put-IsListed s task (set msg none s.by_msg_id) (kept (without msg msgs)) inv
        (λ m. ground (
          arith,
          messages_of-kept (without msg msgs),
          count-without m msg msgs,
          inv.listed task m,
          tally_le_one task (s.by_msg_id m),
          tally-none task msg m s.by_msg_id,
        ))
        (λ t m other. ground (
          arith,
          tally-none t msg m s.by_msg_id,
          tally-other t task (s.by_msg_id msg) own other,
          tally-at t s.by_msg_id msg m,
        ))
        (kept-ne-empty (without msg msgs))

  register-IsListed :
      (msg : ℕ) (task question : String)
      → s.by_msg_id msg ≡ none
      → IsListed (register msg task question s).1
  unfolding register
  register-IsListed msg task question fresh =
      let msgs : List ℕ = messages_of (s.by_task task) in
      let e : Entry = record { ch = s.made; task_id = task; question_id = question } in
      let put =
        put-IsListed s task (set msg (some e) s.by_msg_id) (some (msgs ++ msg ∷ [])) inv
          (λ m. ground (
            arith,
            eq_refl task,
            count-append m msgs (msg ∷ []),
            inv.listed task m,
            tally-some task msg m e s.by_msg_id,
            tally-at task s.by_msg_id msg m,
            ap (tally task) fresh,
          ))
          (λ t m other. ground (
            arith,
            other,
            tally-some t msg m e s.by_msg_id,
            tally-at t s.by_msg_id msg m,
            ap (tally t) fresh,
          ))
          (append-ne-empty msgs msg) in
      record { listed = put.listed; not_empty = put.not_empty }

  move_entry-IsListed :
      (old msg : ℕ) (task question : String) (o : Option Entry)
      → s.by_msg_id old ≡ o
      → s.by_msg_id msg ≡ none
      → OwnTask old task s
      → IsListed (move_entry old msg task question o s)
  unfolding move_entry
  move_entry-IsListed old msg task question none h fresh own = inv
  move_entry-IsListed old msg task question (some e) h fresh own =
      let msgs : List ℕ = messages_of (s.by_task task) in
      let x : Entry = record { ch = e.ch; task_id = task; question_id = question } in
      let rest : ℕ → Option Entry = set old none s.by_msg_id in
      let once : count old msgs ≡ 1 =
        inv.listed task old ∙ ap (tally task) h ∙ tally-own-one task e (own e h) in
      put-IsListed s task (set msg (some x) rest) (replaced_in old msg (s.by_task task)) inv
        (λ m. ground (
          arith,
          eq_refl task,
          once,
          ap (count m) (messages_of-replaced_in old msg (s.by_task task)),
          count-replaced m old msg msgs,
          inv.listed task m,
          tally-some task msg m x rest,
          tally-none task old m s.by_msg_id,
          tally-at task s.by_msg_id msg m,
          tally-at task s.by_msg_id old m,
          ap (tally task) fresh,
          ap (tally task) h,
          tally-own-one task e (own e h),
        ))
        (λ t m other. ground (
          arith,
          other,
          tally-some t msg m x rest,
          tally-none t old m s.by_msg_id,
          tally-at t s.by_msg_id msg m,
          tally-at t s.by_msg_id old m,
          ap (tally t) fresh,
          tally-other t task (s.by_msg_id old) own other,
        ))
        (replaced_in-ne-empty old msg (s.by_task task) (inv.not_empty task))

  send-IsListed : (ch : ℕ) (answer : String) → IsListed (send ch answer s)
  unfolding send
  send-IsListed ch answer = elim (Bool-cases (s.channels ch).closed) [
    | inl c ↦ rw c (record { listed = inv.listed; not_empty = inv.not_empty })
    | inr o ↦ rw o (record { listed = inv.listed; not_empty = inv.not_empty })
  ]

  close-IsListed : (ch : ℕ) → IsListed (close ch s)
  unfolding close
  close-IsListed ch = elim (Bool-cases (s.channels ch).closed) [
    | inl c ↦ rw c (record { listed = inv.listed; not_empty = inv.not_empty })
    | inr o ↦ rw o (record { listed = inv.listed; not_empty = inv.not_empty })
  ]

some-own : (s : Store) (msg : ℕ) (e : Entry) → s.by_msg_id msg ≡ some e → OwnTask msg e.task_id s
some-own s msg e h x p = ground (arith, h, p)

pub count-first : (m : ℕ) (rest : List ℕ) → 1 ≤ count m (m ∷ rest)
count-first m rest = ground arith

without-first : (m : ℕ) (rest : List ℕ) → without m (m ∷ rest) ≡ rest
unfolding without
without-first m rest = ground arith

module _ (s : Store) (inv : IsListed s) where
  resolve_entry-IsListed :
      (msg : ℕ) (answer : String) (o : Option Entry)
      → s.by_msg_id msg ≡ o
      → IsListed (resolve_entry msg answer o s)
  unfolding resolve_entry
  resolve_entry-IsListed msg answer none h = inv
  resolve_entry-IsListed msg answer (some e) h =
      send-IsListed _ (take_out-IsListed s inv msg e.task_id (some-own s msg e h)) e.ch answer

  unregister_entry-IsListed :
      (msg : ℕ) (o : Option Entry) → s.by_msg_id msg ≡ o → IsListed (unregister_entry msg o s)
  unfolding unregister_entry
  unregister_entry-IsListed msg none h = inv
  unregister_entry-IsListed msg (some e) h =
      close-IsListed _ (take_out-IsListed s inv msg e.task_id (some-own s msg e h)) e.ch

  send_to-IsListed : (o : Option Entry) (answer : String) → IsListed (send_to o answer s)
  unfolding send_to
  send_to-IsListed none answer = inv
  send_to-IsListed (some e) answer = send-IsListed s inv e.ch answer

  -- The first message of a task is its own.
  first-own :
      (task : String) (msg : ℕ) (msgs : List ℕ)
      → s.by_task task ≡ some (msg ∷ msgs)
      → OwnTask msg task s
  unfolding messages_of
  first-own task msg msgs h = tally-own task (s.by_msg_id msg) (
      omega
        (arith, inv.listed task msg, ap (λ o. count msg (messages_of o)) h, count-first msg msgs))

  -- Taking out the first message leaves the rest.
  pop-IsListed :
      (task : String) (msg : ℕ) (msgs : List ℕ)
      → s.by_task task ≡ some (msg ∷ msgs)
      → IsListed (record s {
        by_msg_id = set msg none s.by_msg_id;
        by_task = set_task task (kept msgs) s.by_task;
      })
  unfolding take_out
  pop-IsListed task msg msgs h =
      subst
        (λ ms. IsListed (record s {
          by_msg_id = set msg none s.by_msg_id;
          by_task = set_task task (kept ms) s.by_task;
        }))
        (ap (λ o. without msg (messages_of o)) h ∙ without-first msg msgs)
        (take_out-IsListed s inv msg task (first-own task msg msgs h))

resolve_first-IsListed :
    (s : Store) (task answer : String) (o : Option (List ℕ))
    → IsListed s
    → s.by_task task ≡ o
    → IsListed (resolve_first task answer o s).1
unfolding resolve_first
resolve_first-IsListed s task answer none inv h = inv
resolve_first-IsListed s task answer (some []) inv h = inv
resolve_first-IsListed s task answer (some (msg ∷ msgs)) inv h =
    send_to-IsListed _ (pop-IsListed s inv task msg msgs h) (s.by_msg_id msg) answer

step-IsListed : (c : Call) (s : Store) → IsListed s → IsProper c s → IsListed (step c s)
unfolding resolve resolve_by_task unregister_by_msg_id unregister reregister
step-IsListed (registering msg task question) s inv fresh =
    register-IsListed s inv msg task question fresh
step-IsListed (resolving msg answer) s inv proper = resolve_entry-IsListed s inv msg answer _ refl
step-IsListed (resolving_by_task task answer) s inv proper =
    resolve_first-IsListed s task answer _ inv refl
step-IsListed (unregistering_by_msg_id msg) s inv proper =
    unregister_entry-IsListed s inv msg _ refl
step-IsListed (unregistering msg task) s inv own = take_out-IsListed s inv msg task own
step-IsListed (reregistering old msg task question) s inv proper =
    move_entry-IsListed s inv old msg task question _ refl proper.0 proper.1

steps-IsListed :
    (calls : List Call) (s : Store) → IsListed s → AreProper calls s → IsListed (run calls s)
steps-IsListed [] s inv proper = inv
steps-IsListed (c ∷ calls) s inv proper =
    steps-IsListed calls (step c s) (step-IsListed c s inv proper.0) proper.1

-- After calls that name messages and tasks as they were registered, the list of a task holds each message
-- that waits for it once and no other, and no list is empty.
pub run-IsListed : (calls : List Call) → AreProper calls new → IsListed (run calls new)
unfolding messages_of
run-IsListed calls proper =
    steps-IsListed calls new (record { listed = λ t m. refl; not_empty = λ t. none-ne-some [] })
      proper
