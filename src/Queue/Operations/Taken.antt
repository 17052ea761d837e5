-- ===== src/Queue/Operations/Taken.antt =====
-- A task that `findReady` of internal/queue/queue.go returns has left the heap.
use agent_claw.Base.{
  ℕ, ◌+◌, ◌*◌, ◌≡◌, ap, sym, ◌∙◌, String, Bool, true, false, not, ◌&&◌, List, Option, none, some,
  Dict, length, ltb, ◌==◌, if◌then◌else◌,
}
use agent_claw.Queue.Types.{Task, Item, Key, Queue, get_elem?}
use agent_claw.Queue.Heap.Indexes.{IsIndexed, index_at, index_of}
use agent_claw.Queue.Heap.Removal.{remove-removes}
use agent_claw.Queue.Ready.{scan, scan_start, candidates}
use agent_claw.Queue.Ready.Best.{ChosenFrom, scan_chooses}
use agent_claw.Queue.Operations.{
  compact_role_index, remove_from_role_index, remove_at, taken, find_ready,
}
use agent_claw.Queue.Operations.Indexed.{heap_of, replaced-heap_of}

-- The task is one of an item of the queue q that has no place in r, and r holds one item less.
pub record IsTaken (task : Task) (q r : Queue) : Type 0 where
  pub key : Key
  pub item : Item
  pub stored : get_elem? q.items key ≡ some item
  pub its_task : item.task ≡ task
  pub no_place : index_at r.items key ≡ none
  pub one_less : length r.heap + 1 ≡ length q.heap

remove_at-removes :
    (q : Queue) (o : Option ℕ) (place : ℕ) (k : Key)
    → o ≡ some place
    → index_at q.items k ≡ some place
    → IsIndexed (heap_of q)
    → (index_at (remove_at q o).items k ≡ none) × (length (remove_at q o).heap + 1 ≡ length q.heap)
unfolding remove_at
remove_at-removes q none place k e at inv = absurd (absent e)
  where
    absent : none ≡ some place → ⊥
    absent x = cc
remove_at-removes q (some i) place k e at inv =
    remove-removes (heap_of q) i k inv ((inv i k).1 (at ∙ sym e))

taken-IsTaken :
    (done : Dict Bool) (ks : List Key) (q : Queue) (o : Option (Key × Item)) (task : Task)
    → ChosenFrom done q.items ks o
    → IsIndexed (heap_of q)
    → (taken q o).0 ≡ some task
    → IsTaken task q (taken q o).1
unfolding taken remove_from_role_index
taken-IsTaken done ks q none task c inv h = absurd (absent h)
  where
    absent : none ≡ some task → ⊥
    absent x = cc
taken-IsTaken done ks q (some (k, it)) task c inv h =
    let (member, at, ready) = c in
    let gone =
      remove_at-removes q it.index ready.place k ready.in_heap
        (ap (λ x. index_of x) at ∙ ready.in_heap) inv in
    let kept = replaced-heap_of it.task.agent_role (remove_at q it.index) _ in
    record {
      key = k;
      item = it;
      stored = at;
      its_task = ap (λ o. elim o [ none ↦ it.task | some t ↦ t ]) h;
      no_place = ap (λ x. index_at x.items k) kept ∙ gone.0;
      one_less = ap (λ x. length x.keys + 1) kept ∙ gone.1;
    }

find-IsTaken :
    (b : Bool) (role : String) (done : Dict Bool) (ks : List Key) (q : Queue)
    (o : Option (Key × Item)) (task : Task)
    → ChosenFrom done q.items ks o
    → IsIndexed (heap_of q)
    → (taken (if b then compact_role_index role q else q) o).0 ≡ some task
    → IsTaken task q (taken (if b then compact_role_index role q else q) o).1
unfolding compact_role_index
find-IsTaken true role done ks q o task c inv h =
    let taken_so = taken-IsTaken done ks (compact_role_index role q) o task c inv h in
    record {
      key = taken_so.key;
      item = taken_so.item;
      stored = taken_so.stored;
      its_task = taken_so.its_task;
      no_place = taken_so.no_place;
      one_less = taken_so.one_less;
    }
find-IsTaken false role done ks q o task c inv h = taken-IsTaken done ks q o task c inv h

-- In a queue whose indexes are right, the task that `findReady` returns is that of an item of the
-- queue, this item is not in the heap afterwards, and the heap holds one item less.
pub find_ready-IsTaken :
    (role : String) (q : Queue) (task : Task)
    → IsIndexed (heap_of q)
    → (find_ready role q).0 ≡ some task
    → IsTaken task q (find_ready role q).1
unfolding find_ready
find_ready-IsTaken role q task inv h =
    let keys = candidates role q in
    let found = scan q.done_ids q.items keys scan_start in
    let stale = not (role == "") && ltb 0 found.stale && ltb (length keys) (found.stale * 4) in
    find-IsTaken stale role q.done_ids keys q found.best task (scan_chooses q.done_ids q.items keys)
      inv h
