-- ===== src/Agent/Replies/Listing.antt =====
-- How the index by tasks of internal/agent/reply_store.go lists what waits, as numbers.
use agent_claw.Base.{
  ℕ, ◌+◌, ◌-◌, ◌≤◌, ◌≡◌, ◌≢◌, ◌⊎◌, inl, inr, refl, sym, ap, subst, ◌∙◌, String, true, false, List,
  [], ◌∷◌, ◌++◌, Option, none, some, ◌==◌, eqb, eq_iff, eq_refl, Bool-cases, text-cases,
  if◌then◌else◌, arith,
}
use mathlib.Core.Option.{none-ne-some}
use agent_claw.Agent.Replies.{
  Entry, Store, set, set_task, messages_of, kept, without, replaced, replaced_in, Call, registering,
  unregistering, reregistering, step,
}

-- How often a message is in a list.
abbrev pub count : ℕ → List ℕ → ℕ
count m [] = 0
count m (k ∷ msgs) = (if eqb m k then 1 else 0) + count m msgs

pub count-append : (m : ℕ) (xs ys : List ℕ) → count m (xs ++ ys) ≡ count m xs + count m ys
count-append m [] ys = omega arith
count-append m (x ∷ xs) ys = omega (arith, count-append m xs ys)

pub count-without :
    (m msg : ℕ) (msgs : List ℕ)
    → count m (without msg msgs) ≡ (if eqb m msg then count m msgs - 1 else count m msgs)
unfolding without
count-without m msg [] = ground arith
count-without m msg (k ∷ msgs) = ground (arith, count-without m msg msgs)

pub count-replaced :
    (m old msg : ℕ) (msgs : List ℕ)
    → 1 ≤ count old msgs
    → count m (replaced old msg msgs) + (if eqb m old then 1 else 0)
      ≡ count m msgs + (if eqb m msg then 1 else 0)
unfolding replaced
count-replaced m old msg [] h = ground arith
count-replaced m old msg (k ∷ msgs) h = ground (arith, count-replaced m old msg msgs)

pub messages_of-kept : (msgs : List ℕ) → messages_of (kept msgs) ≡ msgs
unfolding messages_of kept
messages_of-kept [] = refl
messages_of-kept (m ∷ msgs) = refl

pub kept-ne-empty : (msgs : List ℕ) → kept msgs ≢ some []
unfolding kept
kept-ne-empty [] h = none-ne-some _ h
kept-ne-empty (m ∷ msgs) h = ground (arith, h)

pub messages_of-replaced_in :
    (old msg : ℕ) (o : Option (List ℕ))
    → messages_of (replaced_in old msg o) ≡ replaced old msg (messages_of o)
unfolding messages_of replaced_in replaced
messages_of-replaced_in old msg none = refl
messages_of-replaced_in old msg (some msgs) = refl

-- Whether an entry waits for a task, as a number.
abbrev pub tally : String → Option Entry → ℕ
tally t none = 0
tally t (some e) = if e.task_id == t then 1 else 0

-- The list of a task holds a message once when it waits for that task, and not at all else; no list is empty.
pub record IsListed (s : Store) : Type 0 where
  pub listed : (t : String) (m : ℕ) → count m (messages_of (s.by_task t)) ≡ tally t (s.by_msg_id m)
  pub not_empty : (t : String) → s.by_task t ≢ some []

-- The calls that name the message and the task as they were registered: a new message does not wait yet,
-- and the task of an old one is its own.
abbrev pub OwnTask : ℕ → String → Store → Type 0
OwnTask msg task s = (e : Entry) → s.by_msg_id msg ≡ some e → e.task_id ≡ task

-- A call that registers under a free number and withdraws an entry for its own task. The agents register each
-- question as message 0 until its message is sent, so while two of them ask at once a call is not so
-- (Agent.Replies.Crossing).
abbrev pub IsProper : Call → Store → Type 0
IsProper (registering msg task question) s = s.by_msg_id msg ≡ none
IsProper (unregistering msg task) s = OwnTask msg task s
IsProper (reregistering old msg task question) s = (s.by_msg_id msg ≡ none) × OwnTask old task s
IsProper _ s = Unit {0}

abbrev pub AreProper : List Call → Store → Type 0
AreProper [] s = Unit {0}
AreProper (c ∷ calls) s = IsProper c s × AreProper calls (step c s)

pub tally-own :
    (t : String) (o : Option Entry) → 1 ≤ tally t o → (e : Entry) → o ≡ some e → e.task_id ≡ t
tally-own t none h e p = absurd (none-ne-some e p)
tally-own t (some x) h e p = ground (arith, eq_iff x.task_id t, h, p)

pub tally-entry :
    (t : String) (o : Option Entry) → 1 ≤ tally t o → (e : Entry) × (o ≡ some e) × (e.task_id ≡ t)
tally-entry t none h = absurd (omega (arith, h))
tally-entry t (some e) h = (e, refl, ground (arith, eq_iff e.task_id t, h))

pub tally_le_one : (t : String) (o : Option Entry) → tally t o ≤ 1
tally_le_one t none = omega arith
tally_le_one t (some e) = ground arith

pub tally-other :
    (t task : String) (o : Option Entry)
    → ((e : Entry) → o ≡ some e → e.task_id ≡ task)
    → (task == t) ≡ false
    → tally t o ≡ 0
tally-other t task none own h = refl
tally-other t task (some e) own h = ground (arith, own e refl, h)

pub nat-cases : (a b : ℕ) → (a ≡ b) ⊎ (eqb a b ≡ false)
nat-cases a b = elim (Bool-cases (eqb a b)) [ inl e ↦ inl (ground (arith, e)) | inr d ↦ inr d ]

pub set_task-here : {A : Type 0} (t : String) (a : A) (f : String → A) → set_task t a f t ≡ a
unfolding set_task
set_task-here t a f = rw (eq_refl t) refl

pub set_task-other :
    {A : Type 0} (t u : String) (a : A) (f : String → A) → (t == u) ≡ false → set_task t a f u ≡ f u
unfolding set_task
set_task-other t u a f h = rw h refl

-- A change of the entries that is one of the list of one task.
pub put-IsListed :
    (s : Store) (task : String) (f : ℕ → Option Entry) (l : Option (List ℕ))
    → IsListed s
    → ((m : ℕ) → count m (messages_of l) ≡ tally task (f m))
    → ((t : String) (m : ℕ) → (task == t) ≡ false → tally t (f m) ≡ tally t (s.by_msg_id m))
    → l ≢ some []
    → IsListed (record s { by_msg_id = f; by_task = set_task task l s.by_task })
put-IsListed s task f l inv here there full = record {
  listed = λ t m. elim (text-cases task t) [
    | inl same ↦
        subst (λ u. count m (messages_of (set_task task l s.by_task u)) ≡ tally u (f m)) same
          (ap (λ o. count m (messages_of o)) (set_task-here task l s.by_task) ∙ here m)
    | inr other ↦
        ap (λ o. count m (messages_of o)) (set_task-other task t l s.by_task other)
        ∙ inv.listed t m
        ∙ sym (there t m other)
  ];
  not_empty = λ t. elim (text-cases task t) [
    | inl same ↦
        subst (λ u. set_task task l s.by_task u ≢ some []) same
          (λ h. full (sym (set_task-here task l s.by_task) ∙ h))
    | inr other ↦ λ h. inv.not_empty t (sym (set_task-other task t l s.by_task other) ∙ h)
  ];
}

-- The entries without a message, and with one.
pub tally-none :
    (t : String) (msg m : ℕ) (f : ℕ → Option Entry)
    → tally t (set msg none f m) ≡ (if eqb msg m then 0 else tally t (f m))
unfolding set
tally-none t msg m f = elim (Bool-cases (eqb msg m)) [ inl h ↦ rw h refl | inr h ↦ rw h refl ]

pub tally-some :
    (t : String) (msg m : ℕ) (e : Entry) (f : ℕ → Option Entry)
    → tally t (set msg (some e) f m) ≡ (if eqb msg m then tally t (some e) else tally t (f m))
unfolding set
tally-some t msg m e f = elim (Bool-cases (eqb msg m)) [ inl h ↦ rw h refl | inr h ↦ rw h refl ]

pub tally-at :
    (t : String) (f : ℕ → Option Entry) (a b : ℕ) → eqb a b ≡ true → tally t (f a) ≡ tally t (f b)
tally-at t f a b h = elim (nat-cases a b) [
  | inl e ↦ ap (λ j. tally t (f j)) e
  | inr d ↦ absurd (ground (arith, h, d))
]
