-- ===== src/Queue/Operations/Laws.antt =====
-- What `Push` and `findReady` of internal/queue/queue.go do.
use agent_claw.Base.{
  ◌≤◌, ◌≡◌, refl, ap, sym, subst, ◌∙◌, inl, inr, String, Bool, true, false, ◌||◌, List, Option,
  none, some, Dict, lookup, insert, lookup-insert, eq_refl, Bool-cases, Option-cases, if◌then◌else◌,
}
use agent_claw.Queue.Types.{Task, Item, Key, Queue, holds, get_elem?}
use agent_claw.Queue.Ready.{deps_ok, scan, scan_start, candidates}
use agent_claw.Queue.Ready.Best.{Member, IsReady, AtMost, ChosenFrom, scan-best, scan_chooses}
use agent_claw.Queue.Operations.{
  role_channel, signal_role, signal_all, enqueue, push, taken, find_ready,
}

role_channel-in_queue : (role : String) (q : Queue) → (role_channel role q).in_queue ≡ q.in_queue
unfolding role_channel
role_channel-in_queue role q = elim (Option-cases (lookup role q.role_notify)) [
  | inl missing ↦ rw (missing, role_channel) refl
  | inr (signal, found) ↦ rw (found, role_channel) refl
]

enqueue-in_queue :
    (task : Task) (q : Queue) → (enqueue task q).in_queue ≡ insert task.id true q.in_queue
unfolding enqueue signal_all signal_role
enqueue-in_queue task q = role_channel-in_queue task.agent_role _

push-known :
    (task : Task) (q : Queue)
    → holds (lookup task.id q.in_queue) || holds (lookup task.id q.done_ids) ≡ true
    → push task q ≡ q
unfolding push
push-known task q h = ap (λ b. if b then q else enqueue task q) h

push-fresh :
    (task : Task) (q : Queue)
    → holds (lookup task.id q.in_queue) || holds (lookup task.id q.done_ids) ≡ false
    → push task q ≡ enqueue task q
unfolding push
push-fresh task q h = ap (λ b. if b then q else enqueue task q) h

now_known : (id : String) (q : Queue) → holds (lookup id (insert id true q.in_queue)) ≡ true
now_known id q = ap (λ o. holds o) (lookup-insert id id true q.in_queue) ∙ rw (eq_refl id) refl

-- A task whose id was just pushed, or was known before, is not queued a second time.
pub push-push :
    (task again : Task) (q : Queue) → again.id ≡ task.id → push again (push task q) ≡ push task q
push-push task again q same =
    elim (Bool-cases (holds (lookup task.id q.in_queue) || holds (lookup task.id q.done_ids))) [
      | inl known ↦
          ap (λ p. push again p) (push-known task q known)
          ∙ push-known again q (
              subst (λ id. holds (lookup id q.in_queue) || holds (lookup id q.done_ids) ≡ true)
                (sym same) known)
          ∙ sym (push-known task q known)
      | inr fresh ↦
          ap (λ p. push again p) (push-fresh task q fresh)
          ∙ push-known again (enqueue task q) (
              subst
                (λ id.
                  holds (lookup id (enqueue task q).in_queue)
                    || holds (lookup id (enqueue task q).done_ids)
                  ≡ true)
                (sym same)
                (ap
                    (λ m.
                      holds (lookup task.id m) || holds (lookup task.id (enqueue task q).done_ids))
                    (enqueue-in_queue task q)
                  ∙ ap (λ b. b || holds (lookup task.id (enqueue task q).done_ids))
                      (now_known task.id q)))
          ∙ sym (push-fresh task q fresh)
    ]

task_of : Option (Key × Item) → Option Task
task_of none = none
task_of (some (k, it)) = some it.task

taken-task : (q : Queue) (o : Option (Key × Item)) → (taken q o).0 ≡ task_of o
unfolding taken task_of
taken-task q none = refl
taken-task q (some (k, it)) = refl

find_ready-task :
    (role : String) (q : Queue)
    → (find_ready role q).0 ≡ task_of (scan q.done_ids q.items (candidates role q) scan_start).best
unfolding find_ready
find_ready-task role q = taken-task _ _

at_most :
    (done : Dict Bool) (items : List Item) (ks : List Key) (it : Item) (o : Option (Key × Item))
    → AtMost it o
    → ChosenFrom done items ks o
    → (task : Task) × (task_of o ≡ some task)
      × (it.task.priority ≤ task.priority)
      × (deps_ok done task.depends_on ≡ true)
unfolding task_of
at_most done items ks it none h c = absurd h
at_most done items ks it (some (k, best)) h c = (best.task, refl, h, c.2.deps_done)

-- When some candidate of a role is in the heap with its dependencies done, `findReady` returns a
-- task; its dependencies are done, and its priority is at least that of the candidate.
pub find_ready-best :
    (role : String) (q : Queue) (k : Key) (it : Item)
    → Member k (candidates role q)
    → get_elem? q.items k ≡ some it
    → IsReady q.done_ids it
    → (task : Task) × ((find_ready role q).0 ≡ some task)
      × (it.task.priority ≤ task.priority)
      × (deps_ok q.done_ids task.depends_on ≡ true)
find_ready-best role q k it m at ready =
    let ks = candidates role q in
    let (task, found, most, deps) =
      at_most q.done_ids q.items ks it _
        (scan-best q.done_ids q.items k it ks scan_start m at ready)
        (scan_chooses q.done_ids q.items ks) in
    (task, find_ready-task role q ∙ found, most, deps)
