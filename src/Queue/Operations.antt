-- ===== src/Queue/Operations.antt =====
-- `Push`, `findReady`, `MarkDone`, `MarkFailed` and `Len` of internal/queue/queue.go.
pub mod Laws
pub mod Indexed
pub mod Taken
use agent_claw.Base.{
  ℕ, zero, suc, ◌+◌, ◌-◌, ◌*◌, String, Bool, true, false, not, ◌&&◌, ◌||◌, List, [], ◌∷◌, ◌++◌,
  Option, none, some, Dict, lookup, insert, delete, ltb, leb, eqb, length, take, if◌then◌else◌,
  ◌==◌,
}
use agent_claw.Queue.Types.{Task, Item, Key, Queue, holds, get_elem?, set}
use agent_claw.Queue.Heap
use agent_claw.Queue.Heap.{Heap}
use agent_claw.Queue.Done.{record_done}
use agent_claw.Queue.Ready.{Scan, scan, scan_start, candidates}

or_nil : Option (List Key) → List Key
or_nil none = []
or_nil (some ks) = ks

-- `roleChannel`: the channel is made without a signal.
role_channel : String → Queue → Queue
role_channel role q = elim (lookup role q.role_notify) [
  | some signal ↦ q
  | none ↦ record q { role_notify = insert role false q.role_notify }
]

-- A send that does not block.
signal_role : String → Queue → Queue
signal_role role q = record q { role_notify = insert role true q.role_notify }

signal_all : Queue → Queue
signal_all q = record q { notify = true }

-- The part of `Push` behind the check for duplicates.
enqueue : Task → Queue → Queue
unfolding or_nil role_channel signal_role signal_all
enqueue task q =
    let k = length q.items in
    let item : Item = record { task = task; index = some 0 } in
    let start : Heap = record { items = q.items ++ item ∷ []; keys = q.heap } in
    let pushed = Heap.push start k in
    let role = task.agent_role in
    let queued = record q {
      items = pushed.items;
      heap = pushed.keys;
      in_queue = insert task.id true q.in_queue;
      role_index = insert role (or_nil (lookup role q.role_index) ++ k ∷ []) q.role_index;
    } in
    signal_all (signal_role role (role_channel role queued))

-- `Push`.
unfoldable pub push : Task → Queue → Queue
unfolding enqueue
push task q =
    if holds (lookup task.id q.in_queue) || holds (lookup task.id q.done_ids)
    then q
    else enqueue task q

in_heap : Option Item → Bool
in_heap none = false
in_heap (some it) = elim it.index [ none ↦ false | some i ↦ true ]

live : List Item → List Key → List Key
unfolding in_heap
live items [] = []
live items (k ∷ ks) =
    let rest = live items ks in if in_heap (get_elem? items k) then k ∷ rest else rest

-- `compactRoleIndex`.
unfoldable pub compact_role_index : String → Queue → Queue
unfolding live or_nil
compact_role_index role q = record q {
  role_index = insert role (live q.items (or_nil (lookup role q.role_index))) q.role_index;
}

last_or : Key → List Key → Key
last_or k [] = k
last_or k (j ∷ ks) = last_or j ks

-- The loop of `removeFromRoleIndex`: the last key takes the place of the first that is k.
swap_out : Key → ℕ → List Key → List Key → Option (List Key)
unfolding last_or
swap_out k i all [] = none
swap_out k i all (j ∷ ks) =
    let later = swap_out k (suc i) all ks in
    if eqb j k then some (take (length all - 1) (set all i (last_or j all))) else later

pub replaced : String → Queue → Option (List Key) → Queue
replaced role q none = q
replaced role q (some ks) = record q { role_index = insert role ks q.role_index }

-- `removeFromRoleIndex`.
unfoldable pub remove_from_role_index : String → Key → Queue → Queue
unfolding swap_out replaced or_nil
remove_from_role_index role k q =
    let keys = or_nil (lookup role q.role_index) in replaced role q (swap_out k 0 keys keys)

remove_at : Queue → Option ℕ → Queue
remove_at q none = q
remove_at q (some i) =
    let start : Heap = record { items = q.items; keys = q.heap } in
    let removed = Heap.remove start i in record q { items = removed.items; heap = removed.keys }

taken : Queue → Option (Key × Item) → Option Task × Queue
unfolding remove_at
taken q none = (none, q)
taken q (some (k, it)) =
    let task = it.task in
    let unlisted = remove_from_role_index task.agent_role k (remove_at q it.index) in
    (some task, record unlisted { in_queue = delete task.id unlisted.in_queue })

-- `findReady`.
unfoldable pub find_ready : String → Queue → Option Task × Queue
unfolding taken
find_ready role q =
    let keys = candidates role q in
    let found = scan q.done_ids q.items keys scan_start in
    let compacted = compact_role_index role q in
    let stale = not (role == "") && ltb 0 found.stale && ltb (length keys) (found.stale * 4) in
    taken (if stale then compacted else q) found.best

-- The start of `Pop`: the channel of the role is there.
unfoldable pub pop_start : String → Queue → Queue
unfolding role_channel
pop_start role q = role_channel role q

-- The two receives of `Pop`; each takes the signal of its channel.
unfoldable pub receive_role : String → Queue → Queue
receive_role role q = record q { role_notify = insert role false q.role_notify }

unfoldable pub receive_all : Queue → Queue
receive_all q = record q { notify = false }

waits_on : String → List String → Bool
waits_on id [] = false
waits_on id (dep ∷ deps) = (dep == id) || waits_on id deps

signal_if : Bool → Option Item → Queue → Queue
unfolding signal_role
signal_if waits none q = q
signal_if waits (some it) q = if waits then signal_role it.task.agent_role q else q

waits_item : String → Option Item → Bool
unfolding waits_on
waits_item id none = false
waits_item id (some it) = waits_on id it.task.depends_on

signal_waiting : String → List Key → Queue → Queue
unfolding signal_if waits_item
signal_waiting id [] q = q
signal_waiting id (k ∷ ks) q =
    let it = get_elem? q.items k in signal_waiting id ks (signal_if (waits_item id it) it q)

-- `MarkDone`.
unfoldable pub mark_done : String → Queue → Queue
unfolding signal_waiting signal_all
mark_done id q =
    let recorded = record_done id q in
    let left = record recorded { in_queue = delete id recorded.in_queue } in
    signal_all (signal_waiting id left.heap left)

-- `MarkFailed`: the task, which it changes, and the queue.
unfoldable pub mark_failed : Task → ℕ → Queue → Task × Queue
mark_failed task max_retries q =
    let failed = record task { retries = task.retries + 1 } in
    let queued = record failed { status = "queued" } in
    if leb failed.retries max_retries
    then (queued, push queued (record q { in_queue = delete task.id q.in_queue }))
    else (failed, q)

-- `Len`.
unfoldable pub len : Queue → ℕ
len q = length q.heap
