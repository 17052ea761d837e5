-- ===== src/Agent/Replies/Channels.antt =====
-- The channels that wait: each has one entry, and is open and empty.
use agent_claw.Base.{
  ℕ, suc, ◌<◌, ◌≡◌, ◌≢◌, ◌⊎◌, inl, inr, refl, sym, ap, subst, ◌∙◌, String, false, List, [], ◌∷◌,
  Option, none, some, eqb, Bool-cases, arith,
}
use mathlib.Core.Option.{none-ne-some}
use agent_claw.Agent.Replies.{
  Channel, Entry, Store, empty_channel, new, set, take_out, send, close, filled, register, resolve,
  resolve_entry, send_to, resolve_first, resolve_by_task, unregister_entry, unregister_by_msg_id,
  unregister, move_entry, reregister, Call, registering, resolving, resolving_by_task,
  unregistering_by_msg_id, unregistering, reregistering, step, run,
}

-- No call has panicked; the channel of an entry was made, is open and holds no answer; and no two entries
-- share one.
pub record IsSound (s : Store) : Type 0 where
  pub no_panic : s.panicked ≡ false
  pub made_before : (m : ℕ) (e : Entry) → s.by_msg_id m ≡ some e → e.ch < s.made
  pub is_empty : (m : ℕ) (e : Entry) → s.by_msg_id m ≡ some e → s.channels e.ch ≡ empty_channel
  pub is_own :
      (m m' : ℕ) (e e' : Entry)
      → s.by_msg_id m ≡ some e
      → s.by_msg_id m' ≡ some e'
      → e.ch ≡ e'.ch
      → m ≡ m'

-- The entry that an assignment sets, or an old one.
set-some :
    {A : Type 0} (k j : ℕ) (o : Option A) (f : ℕ → Option A) (a : A)
    → set k o f j ≡ some a
    → ((k ≡ j) × (o ≡ some a)) ⊎ ((k ≢ j) × (f j ≡ some a))
unfolding set
set-some k j o f a h = elim (Bool-cases (eqb k j)) [
  | inl e ↦ inl (ground (arith, e), ground (arith, e, h))
  | inr d ↦ inr (ground (arith, d), ground (arith, d, h))
]

set-here : {A : Type 0} (k : ℕ) (a : A) (f : ℕ → A) → set k a f k ≡ a
unfolding set
set-here k a f = ground arith

-- What an entry taken out leaves: the others.
take_out-others :
    (s : Store) (msg m : ℕ) (e : Entry)
    → set msg none s.by_msg_id m ≡ some e
    → (msg ≢ m) × (s.by_msg_id m ≡ some e)
take_out-others s msg m e h = elim (set-some msg m none s.by_msg_id e h) [
  | inl p ↦ absurd (none-ne-some e p.1)
  | inr p ↦ p
]

module _ (s : Store) (sound : IsSound s) where
  shrink-IsSound :
      (f : ℕ → Option Entry) (t : String → Option (List ℕ))
      → ((m : ℕ) (e : Entry) → f m ≡ some e → s.by_msg_id m ≡ some e)
      → IsSound (record s { by_msg_id = f; by_task = t })
  shrink-IsSound f t within = record {
    no_panic = sound.no_panic;
    made_before = λ m e h. sound.made_before m e (within m e h);
    is_empty = λ m e h. sound.is_empty m e (within m e h);
    is_own = λ m m' e e' h h'. sound.is_own m m' e e' (within m e h) (within m' e' h');
  }

  -- A channel without an entry may change.
  channel-IsSound :
      (ch : ℕ) (c : Channel)
      → ((m : ℕ) (e : Entry) → s.by_msg_id m ≡ some e → ch ≢ e.ch)
      → IsSound (record s { channels = set ch c s.channels })
  unfolding set
  channel-IsSound ch c free = record {
    no_panic = sound.no_panic;
    made_before = sound.made_before;
    is_empty = λ m e h. ground (arith, free m e h, sound.is_empty m e h);
    is_own = sound.is_own;
  }

  send-IsSound :
      (ch : ℕ) (answer : String)
      → s.channels ch ≡ empty_channel
      → ((m : ℕ) (e : Entry) → s.by_msg_id m ≡ some e → ch ≢ e.ch)
      → IsSound (send ch answer s)
  unfolding send
  send-IsSound ch answer unused free = rw (ap (λ c. c.closed) unused) (channel-IsSound ch _ free)

  close-IsSound :
      (ch : ℕ)
      → s.channels ch ≡ empty_channel
      → ((m : ℕ) (e : Entry) → s.by_msg_id m ≡ some e → ch ≢ e.ch)
      → IsSound (close ch s)
  unfolding close
  close-IsSound ch unused free = rw (ap (λ c. c.closed) unused) (channel-IsSound ch _ free)

-- The channel of an entry that is taken out has no other.
module _ (s : Store) (sound : IsSound s) (msg : ℕ) (e : Entry)
    (held : s.by_msg_id msg ≡ some e) where
  out-free : (m : ℕ) (x : Entry) → set msg none s.by_msg_id m ≡ some x → e.ch ≢ x.ch
  out-free m x h same =
      let (other, old) = take_out-others s msg m x h in other (sound.is_own msg m e x held old same)

  out-IsSound :
      (t : String → Option (List ℕ))
      → IsSound (record s { by_msg_id = set msg none s.by_msg_id; by_task = t })
  out-IsSound t = shrink-IsSound s sound _ t (λ m x h. (take_out-others s msg m x h).1)

  out-send-IsSound :
      (t : String → Option (List ℕ)) (answer : String)
      → IsSound (send e.ch answer (record s { by_msg_id = set msg none s.by_msg_id; by_task = t }))
  out-send-IsSound t answer =
      send-IsSound _ (out-IsSound t) e.ch answer (sound.is_empty msg e held) out-free

resolve_entry-IsSound :
    (s : Store) (msg : ℕ) (answer : String) (o : Option Entry)
    → IsSound s
    → s.by_msg_id msg ≡ o
    → IsSound (resolve_entry msg answer o s)
unfolding resolve_entry take_out
resolve_entry-IsSound s msg answer none sound h = sound
resolve_entry-IsSound s msg answer (some e) sound h = out-send-IsSound s sound msg e h _ answer

unregister_entry-IsSound :
    (s : Store) (msg : ℕ) (o : Option Entry)
    → IsSound s
    → s.by_msg_id msg ≡ o
    → IsSound (unregister_entry msg o s)
unfolding unregister_entry take_out
unregister_entry-IsSound s msg none sound h = sound
unregister_entry-IsSound s msg (some e) sound h =
    close-IsSound _ (out-IsSound s sound msg e h _) e.ch (sound.is_empty msg e h)
      (out-free s sound msg e h)

send_to-IsSound :
    (s : Store) (msg : ℕ) (answer : String) (o : Option Entry) (t : String → Option (List ℕ))
    → IsSound s
    → s.by_msg_id msg ≡ o
    → IsSound (send_to o answer (record s { by_msg_id = set msg none s.by_msg_id; by_task = t }))
unfolding send_to
send_to-IsSound s msg answer none t sound h =
    shrink-IsSound s sound _ t (λ m x p. (take_out-others s msg m x p).1)
send_to-IsSound s msg answer (some e) t sound h = out-send-IsSound s sound msg e h t answer

resolve_first-IsSound :
    (s : Store) (task answer : String) (o : Option (List ℕ))
    → IsSound s
    → IsSound (resolve_first task answer o s).1
unfolding resolve_first
resolve_first-IsSound s task answer none sound = sound
resolve_first-IsSound s task answer (some []) sound = sound
resolve_first-IsSound s task answer (some (msg ∷ msgs)) sound =
    send_to-IsSound s msg answer _ _ sound refl

same-ch : (e x : Entry) → some e ≡ some x → e.ch ≡ x.ch
same-ch e x h = ground (arith, h)

-- An entry with an unused channel of its own may be set, over some of the others.
put-IsSound :
    (s : Store) (f : ℕ → Option Entry) (t : String → Option (List ℕ)) (msg : ℕ) (e : Entry)
    → IsSound s
    → ((m : ℕ) (x : Entry) → f m ≡ some x → s.by_msg_id m ≡ some x)
    → e.ch < s.made
    → s.channels e.ch ≡ empty_channel
    → ((m : ℕ) (x : Entry) → f m ≡ some x → e.ch ≢ x.ch)
    → IsSound (record s { by_msg_id = set msg (some e) f; by_task = t })
put-IsSound s f t msg e sound within before unused free = record {
  no_panic = sound.no_panic;
  made_before = λ m x h. elim (set-some msg m _ f x h) [
    | inl p ↦ omega (arith, same-ch e x p.1, before)
    | inr p ↦ sound.made_before m x (within m x p.1)
  ];
  is_empty = λ m x h. elim (set-some msg m _ f x h) [
    | inl p ↦ subst (λ c. s.channels c ≡ empty_channel) (same-ch e x p.1) unused
    | inr p ↦ sound.is_empty m x (within m x p.1)
  ];
  is_own = λ m m' x x' h h' same. elim (set-some msg m _ f x h) [
    | inl p ↦ elim (set-some msg m' _ f x' h') [
      | inl q ↦ sym p.0 ∙ q.0
      | inr q ↦ absurd (free m' x' q.1 (same-ch e x p.1 ∙ same))
    ]
    | inr p ↦ elim (set-some msg m' _ f x' h') [
      | inl q ↦ absurd (free m x p.1 (same-ch e x' q.1 ∙ sym same))
      | inr q ↦ sound.is_own m m' x x' (within m x p.1) (within m' x' q.1) same
    ]
  ];
}

-- A new channel is nobody's.
make-IsSound :
    (s : Store)
    → IsSound s
    → IsSound (record s { channels = set s.made empty_channel s.channels; made = suc s.made })
unfolding set
make-IsSound s sound = record {
  no_panic = sound.no_panic;
  made_before = λ m e h. omega (arith, sound.made_before m e h);
  is_empty = λ m e h. ground (arith, sound.made_before m e h, sound.is_empty m e h);
  is_own = sound.is_own;
}

register-IsSound :
    (s : Store) (msg : ℕ) (task question : String)
    → IsSound s
    → IsSound (register msg task question s).1
unfolding register
register-IsSound s msg task question sound =
    put-IsSound _ s.by_msg_id _ msg (record { ch = s.made; task_id = task; question_id = question })
      (make-IsSound s sound) (λ m x h. h) (omega arith) (set-here s.made empty_channel s.channels)
      (λ m x h same. absurd (omega (arith, sound.made_before m x h, same)))

move_entry-IsSound :
    (s : Store) (old msg : ℕ) (task question : String) (o : Option Entry)
    → IsSound s
    → s.by_msg_id old ≡ o
    → IsSound (move_entry old msg task question o s)
unfolding move_entry
move_entry-IsSound s old msg task question none sound h = sound
move_entry-IsSound s old msg task question (some e) sound h =
    put-IsSound s (set old none s.by_msg_id) _ msg
      (record { ch = e.ch; task_id = task; question_id = question }) sound
      (λ m x p. (take_out-others s old m x p).1) (sound.made_before old e h)
      (sound.is_empty old e h) (out-free s sound old e h)

step-IsSound : (c : Call) (s : Store) → IsSound s → IsSound (step c s)
unfolding resolve resolve_by_task unregister_by_msg_id unregister take_out reregister
step-IsSound (registering msg task question) s sound = register-IsSound s msg task question sound
step-IsSound (resolving msg answer) s sound = resolve_entry-IsSound s msg answer _ sound refl
step-IsSound (resolving_by_task task answer) s sound = resolve_first-IsSound s task answer _ sound
step-IsSound (unregistering_by_msg_id msg) s sound = unregister_entry-IsSound s msg _ sound refl
step-IsSound (unregistering msg task) s sound =
    shrink-IsSound s sound _ _ (λ m x p. (take_out-others s msg m x p).1)
step-IsSound (reregistering old msg task question) s sound =
    move_entry-IsSound s old msg task question _ sound refl

steps-IsSound : (calls : List Call) (s : Store) → IsSound s → IsSound (run calls s)
steps-IsSound [] s sound = sound
steps-IsSound (c ∷ calls) s sound = steps-IsSound calls (step c s) (step-IsSound c s sound)

-- After any calls of a new store none has panicked, the channel of each entry was made before, is open and
-- empty, and no two entries have the same channel.
pub run-IsSound : (calls : List Call) → IsSound (run calls new)
run-IsSound calls = steps-IsSound calls new (record {
  no_panic = refl;
  made_before = λ m e h. absurd (none-ne-some e h);
  is_empty = λ m e h. absurd (none-ne-some e h);
  is_own = λ m m' e e' h h' same. absurd (none-ne-some e h);
})

-- After any calls of a new store, the answer to a message that has an entry is in the channel of that entry, open,
-- and the message has no entry any more.
pub resolve_delivers :
    (calls : List Call) (msg : ℕ) (answer : String) (e : Entry)
    → (run calls new).by_msg_id msg ≡ some e
    → let s = resolve msg answer (run calls new) in
      (s.channels e.ch ≡ record { content = some answer; closed = false })
      × (s.by_msg_id msg ≡ none)
unfolding resolve resolve_entry take_out send set filled
resolve_delivers calls msg answer e h =
    rw (h, (run-IsSound calls).is_empty msg e h) (ground arith, ground arith)
