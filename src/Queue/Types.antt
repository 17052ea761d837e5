-- ===== src/Queue/Types.antt =====
-- The state of internal/queue/queue.go. Items are pointers that the heap and the role index share, so
-- they stand in a store and are named by their places in it.
use agent_claw.Base.{ℕ, zero, suc, String, Bool, false, List, [], ◌∷◌, Option, none, some, Dict}

-- The fields of `adapter.Task` that the queue reads or writes.
pub record Task : Type 0 where
  pub id : String
  pub agent_role : String
  pub status : String
  pub priority : ℕ
  pub depends_on : List String
  pub retries : ℕ

-- `item`; no index is the index -1.
pub record Item : Type 0 where
  pub task : Task
  pub index : Option ℕ

abbrev pub Key : Type 0
Key = ℕ

-- `Queue`. A channel of capacity 1 is whether it holds a signal.
pub record Queue : Type 0 where
  pub items : List Item
  pub heap : List Key
  pub done_ids : Dict Bool
  pub done_seq : List String
  pub in_queue : Dict Bool
  pub role_index : Dict (List Key)
  pub notify : Bool
  pub role_notify : Dict Bool

-- `New`.
unfoldable pub new : Queue
new = record {
  items = [];
  heap = [];
  done_ids = [];
  done_seq = [];
  in_queue = [];
  role_index = [];
  notify = false;
  role_notify = [];
}

-- A `map[string]bool` that holds no `false`, read with its default.
abbrev pub holds : Option Bool → Bool
holds none = false
holds (some b) = b

-- A list read and written at a place.
module _ {A : Type 0} where
  abbrev pub get_elem? : List A → ℕ → Option A
  get_elem? [] i = none
  get_elem? (x ∷ xs) zero = some x
  get_elem? (x ∷ xs) (suc i) = get_elem? xs i

  abbrev pub set : List A → ℕ → A → List A
  set [] i y = []
  set (x ∷ xs) zero y = y ∷ xs
  set (x ∷ xs) (suc i) y = x ∷ set xs i y
