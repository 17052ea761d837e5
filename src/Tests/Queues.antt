-- ===== src/Tests/Queues.antt =====
-- Runs of internal/queue/queue.go.
use agent_claw.Base.{◌≡◌, refl, ℕ, ◌≤◌, String, true, List, [], ◌∷◌, some, lookup, insert}
use agent_claw.Queue.Types.{Task, Item, Queue, new}
use agent_claw.Queue.Ready.{deps_ok, candidates, scan}
use agent_claw.Queue.Ready.Best.{Member, here, IsReady}
use agent_claw.Queue.Heap
use agent_claw.Queue.Heap.{Heap, up, down}
use agent_claw.Queue.Heap.Indexes.{IsIndexed}
use agent_claw.Queue.Operations.{push, find_ready}
use agent_claw.Queue.Operations.Laws.{find_ready-best}
use agent_claw.Queue.Operations.Indexed.{
  step, Call, pushed, started, woken, popped, done, failed, run, heap_of, run-IsIndexed,
}

abbrev job : String → ℕ → List String → Task
job id priority deps = record {
  id = id;
  agent_role = "backend";
  status = "queued";
  priority = priority;
  depends_on = deps;
  retries = 0;
}

-- Two queued tasks, of which the second is more urgent and waits for a task that is done.
abbrev urgent : Item
urgent = record { task = job "b" 80 ("z" ∷ []); index = some 0 }

abbrev waiting : Queue
waiting = record {
  items = record { task = job "a" 50 []; index = some 1 } ∷ urgent ∷ [];
  heap = 1 ∷ 0 ∷ [];
  done_ids = ("z", true) ∷ [];
  done_seq = "z" ∷ [];
  in_queue = ("a", true) ∷ ("b", true) ∷ [];
  role_index = ("backend", 0 ∷ 1 ∷ []) ∷ [];
  notify = true;
  role_notify = ("backend", true) ∷ [];
}

urgent-IsReady : IsReady waiting.done_ids urgent
unfolding deps_ok lookup
urgent-IsReady = record { place = 0; in_heap = refl; deps_done = refl }

urgent_candidate : Member 1 (candidates "" waiting)
unfolding candidates
urgent_candidate = here

find_ready-best_example :
    (task : Task) × ((find_ready "" waiting).0 ≡ some task)
    × (urgent.task.priority ≤ task.priority)
    × (deps_ok waiting.done_ids task.depends_on ≡ true)
find_ready-best_example = find_ready-best "" waiting 1 urgent urgent_candidate refl urgent-IsReady

abbrev calls : List Call
calls =
    pushed (job "a" 50 [])
    ∷ pushed (job "b" 80 ("z" ∷ []))
    ∷ started "backend"
    ∷ popped "backend"
    ∷ woken "backend"
    ∷ done "z"
    ∷ popped ""
    ∷ failed (job "b" 80 []) 3
    ∷ []

run-IsIndexed_example : IsIndexed (heap_of (run calls new))
run-IsIndexed_example = run-IsIndexed calls

abbrev before : Queue
before = run (pushed (job "a" 50 []) ∷ pushed (job "b" 80 []) ∷ []) new

first_out : (find_ready "backend" before).0 ≡ some (job "b" 80 [])
unfolding find_ready run step scan candidates lookup push new insert Heap.push Heap.up Heap.less
    Heap.set_index Heap.swap
first_out = refl
