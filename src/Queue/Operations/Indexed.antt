-- ===== src/Queue/Operations/Indexed.antt =====
-- Every operation of internal/queue/queue.go keeps the index of each item.
use agent_claw.Base.{
  ℕ, ◌≡◌, refl, sym, subst, ◌∙◌, inl, inr, String, Bool, true, false, not, ◌&&◌, ◌||◌, List, [],
  ◌∷◌, Option, none, some, lookup, length, leb, ltb, ◌==◌, ◌*◌, ◌+◌, Option-cases, if◌then◌else◌,
  arith,
}
use agent_claw.Queue.Types.{Task, Item, Key, Queue, holds, new, get_elem?}
use agent_claw.Queue.Heap.{Heap}
use agent_claw.Queue.Heap.Indexes.{IsIndexed}
use agent_claw.Queue.Heap.Moves.{push-IsIndexed, remove-IsIndexed}
use agent_claw.Queue.Done.{record_done}
use agent_claw.Queue.Done.Bounds.{record_done-SameHeap}
use agent_claw.Queue.Ready.{scan, scan_start, candidates}
use agent_claw.Queue.Operations.{
  pop_start, receive_role, receive_all, role_channel, signal_role, signal_all, enqueue, push,
  compact_role_index, replaced, remove_from_role_index, remove_at, taken, find_ready, signal_if,
  waits_item, signal_waiting, mark_done, mark_failed,
}

-- The store and the heap of a queue.
abbrev pub heap_of : Queue → Heap
heap_of q = record { items = q.items; keys = q.heap }

-- A step of the queue: `Push`, `MarkDone` and `MarkFailed`, and the parts of `Pop`, which other steps may
-- come between: its start, its look for a task, and the receives from its two channels.
pub data Call : Type 0 where
  pushed : Task → Call
  started : String → Call
  popped : String → Call
  woken : String → Call
  woken_by_all : Call
  done : String → Call
  failed : Task → ℕ → Call

unfoldable pub step : Call → Queue → Queue
step (pushed task) q = push task q
step (started role) q = pop_start role q
step (popped role) q = (find_ready role q).1
step (woken role) q = receive_role role q
step woken_by_all q = receive_all q
step (done id) q = mark_done id q
step (failed task max_retries) q = (mark_failed task max_retries q).1

unfoldable pub run : List Call → Queue → Queue
run [] q = q
run (c ∷ cs) q = run cs (step c q)

heap_of-choice :
    (b : Bool) (x y : Queue)
    → IsIndexed (heap_of x)
    → IsIndexed (heap_of y)
    → IsIndexed (heap_of (if b then x else y))
heap_of-choice true x y h k = h
heap_of-choice false x y h k = k

role_channel-heap_of : (role : String) (q : Queue) → heap_of (role_channel role q) ≡ heap_of q
unfolding role_channel
role_channel-heap_of role q = elim (Option-cases (lookup role q.role_notify)) [
  | inl missing ↦ rw (missing, role_channel) refl
  | inr (signal, found) ↦ rw (found, role_channel) refl
]

push-keeps : (task : Task) (q : Queue) → IsIndexed (heap_of q) → IsIndexed (heap_of (push task q))
unfolding push enqueue signal_all signal_role
push-keeps task q inv =
    let item : Item = record { task = task; index = some 0 } in
    heap_of-choice (holds (lookup task.id q.in_queue) || holds (lookup task.id q.done_ids)) q _ inv
      (subst (λ h. IsIndexed h) (sym (role_channel-heap_of task.agent_role _))
        (push-IsIndexed q.items q.heap item 0 refl inv))

remove_at-keeps :
    (q : Queue) (o : Option ℕ) → IsIndexed (heap_of q) → IsIndexed (heap_of (remove_at q o))
unfolding remove_at
remove_at-keeps q none inv = inv
remove_at-keeps q (some i) inv = remove-IsIndexed (heap_of q) i inv

pub replaced-heap_of :
    (role : String) (q : Queue) (o : Option (List Key)) → heap_of (replaced role q o) ≡ heap_of q
unfolding replaced
replaced-heap_of role q none = refl
replaced-heap_of role q (some ks) = refl

taken-keeps :
    (q : Queue) (o : Option (Key × Item))
    → IsIndexed (heap_of q)
    → IsIndexed (heap_of (taken q o).1)
unfolding taken remove_from_role_index
taken-keeps q none inv = inv
taken-keeps q (some (k, it)) inv =
    subst (λ h. IsIndexed h) (sym (replaced-heap_of it.task.agent_role (remove_at q it.index) _))
      (remove_at-keeps q it.index inv)

find_ready-keeps :
    (role : String) (q : Queue) → IsIndexed (heap_of q) → IsIndexed (heap_of (find_ready role q).1)
unfolding find_ready compact_role_index
find_ready-keeps role q inv =
    let keys = candidates role q in
    let found = scan q.done_ids q.items keys scan_start in
    let stale = not (role == "") && ltb 0 found.stale && ltb (length keys) (found.stale * 4) in
    taken-keeps (if stale then compact_role_index role q else q) found.best
      (heap_of-choice stale (compact_role_index role q) q inv inv)

signal_if-heap_of : (b : Bool) (o : Option Item) (q : Queue) → heap_of (signal_if b o q) ≡ heap_of q
unfolding signal_if signal_role
signal_if-heap_of b none q = refl
signal_if-heap_of true (some it) q = refl
signal_if-heap_of false (some it) q = refl

signal_waiting-heap_of :
    (id : String) (ks : List Key) (q : Queue) → heap_of (signal_waiting id ks q) ≡ heap_of q
unfolding signal_waiting
signal_waiting-heap_of id [] q = refl
signal_waiting-heap_of id (k ∷ ks) q =
    signal_waiting-heap_of id ks _
    ∙ signal_if-heap_of (waits_item id (get_elem? q.items k)) (get_elem? q.items k) q

record_done-heap_of : (id : String) (q : Queue) → heap_of (record_done id q) ≡ heap_of q
record_done-heap_of id q = let (items, heap) = record_done-SameHeap id q in cc (items, heap)

mark_done-keeps :
    (id : String) (q : Queue) → IsIndexed (heap_of q) → IsIndexed (heap_of (mark_done id q))
unfolding mark_done signal_all
mark_done-keeps id q inv =
    subst (λ h. IsIndexed h)
      (sym (signal_waiting-heap_of id (record_done id q).heap _ ∙ record_done-heap_of id q)) inv

mark_failed-keeps :
    (task : Task) (max_retries : ℕ) (q : Queue)
    → IsIndexed (heap_of q)
    → IsIndexed (heap_of (mark_failed task max_retries q).1)
unfolding mark_failed
mark_failed-keeps task max_retries q inv =
    pair-choice (leb (task.retries + 1) max_retries) _ _ (push-keeps _ _ inv) inv
  where
    pair-choice :
        (b : Bool) (x y : Task × Queue)
        → IsIndexed (heap_of x.1)
        → IsIndexed (heap_of y.1)
        → IsIndexed (heap_of (if b then x else y).1)
    pair-choice true x y h k = h
    pair-choice false x y h k = k

step-keeps : (c : Call) (q : Queue) → IsIndexed (heap_of q) → IsIndexed (heap_of (step c q))
unfolding step pop_start receive_role receive_all
step-keeps (pushed task) q inv = push-keeps task q inv
step-keeps (started role) q inv = subst (λ h. IsIndexed h) (sym (role_channel-heap_of role q)) inv
step-keeps (popped role) q inv = find_ready-keeps role q inv
step-keeps (woken role) q inv = inv
step-keeps woken_by_all q inv = inv
step-keeps (done id) q inv = mark_done-keeps id q inv
step-keeps (failed task max_retries) q inv = mark_failed-keeps task max_retries q inv

run-keeps : (cs : List Call) (q : Queue) → IsIndexed (heap_of q) → IsIndexed (heap_of (run cs q))
unfolding run
run-keeps [] q inv = inv
run-keeps (c ∷ cs) q inv = run-keeps cs (step c q) (step-keeps c q inv)

-- After any steps of a new queue, the item at each place of the heap has that place as its index, and
-- an item with an index stands at that place; so an item is in the heap once at most.
pub run-IsIndexed : (cs : List Call) → IsIndexed (heap_of (run cs new))
unfolding new
run-IsIndexed cs = run-keeps cs new (λ i k. (λ e. ground (arith, e), λ e. ground (arith, e)))
