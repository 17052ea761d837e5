-- ===== src/Queue/Heap.antt =====
-- Go's container/heap over `pq` of internal/queue/queue.go: `Less` compares the priorities of two items,
-- and `Swap`, `Push` and `Pop` keep the index of each item.
pub mod Indexes
pub mod Moves
pub mod Removal
pub mod Fuel
use agent_claw.Base.{
  ℕ, zero, suc, ◌+◌, ◌-◌, ◌*◌, ◌/◌, Bool, true, false, not, ◌&&◌, ◌||◌, List, [], ◌∷◌, ◌++◌, Option,
  none, some, ltb, leb, eqb, length, take, if◌then◌else◌,
}
use agent_claw.Queue.Types.{Item, Key, get_elem?, set}

-- The store and the heap.
pub record Heap : Type 0 where
  pub items : List Item
  pub keys : List Key

indexed : Option ℕ → Item → Item
indexed i it = record it { index = i }

set_index_of : Key → Option ℕ → List Item → Option Item → List Item
unfolding indexed
set_index_of k i items none = items
set_index_of k i items (some it) = set items k (indexed i it)

-- `it.index = i`.
unfoldable pub set_index : Key → Option ℕ → List Item → List Item
unfolding set_index_of
set_index k i items = set_index_of k i items (get_elem? items k)

priority_of : Option Item → ℕ
priority_of none = 0
priority_of (some it) = it.task.priority

item_at : Heap → Option Key → Option Item
item_at h none = none
item_at h (some k) = get_elem? h.items k

-- `Less`, at two places of the heap.
unfoldable pub less : Heap → ℕ → ℕ → Bool
unfolding priority_of item_at
less h i j =
    ltb (priority_of (item_at h (get_elem? h.keys j)))
      (priority_of (item_at h (get_elem? h.keys i)))

pub swap_keys : Heap → ℕ → ℕ → Option Key → Option Key → Heap
swap_keys h i j (some a) (some b) = record {
  items = set_index a (some j) (set_index b (some i) h.items);
  keys = set (set h.keys i b) j a;
}
swap_keys h i j _ _ = h

-- `Swap`.
unfoldable pub swap : Heap → ℕ → ℕ → Heap
unfolding swap_keys
swap h i j = swap_keys h i j (get_elem? h.keys i) (get_elem? h.keys j)

-- `up` of container/heap; a place j needs at most j steps.
unfoldable pub up : ℕ → Heap → ℕ → Heap
up zero h j = h
up (suc fuel) h j =
    let i = (j - 1) / 2 in
    let further = up fuel (swap h i j) i in if eqb i j || not (less h j i) then h else further

-- The child that `down` compares with.
child : Heap → ℕ → ℕ → ℕ
child h i n =
    let left = 2 * i + 1 in if ltb (left + 1) n && less h (left + 1) left then left + 1 else left

-- `down` of container/heap below n, with the place it ends at; it needs at most n steps.
unfoldable pub down : ℕ → Heap → ℕ → ℕ → Heap × ℕ
unfolding child
down zero h i n = (h, i)
down (suc fuel) h i n =
    let j = child h i n in
    let further = down fuel (swap h i j) j n in
    if leb n (2 * i + 1) || not (less h j i) then (h, i) else further

-- `Push` of `pq`, then `up`.
unfoldable pub push : Heap → Key → Heap
push h k =
    let n = length h.keys in
    let added : Heap = record { items = set_index k (some n) h.items; keys = h.keys ++ k ∷ [] } in
    up n added n

popped : Heap → ℕ → Option Key → Heap
popped h n none = h
popped h n (some k) = record { items = set_index k none h.items; keys = take n h.keys }

-- `Pop` of `pq`, of the last of n + 1 keys.
unfoldable pub pop_last : Heap → ℕ → Heap
unfolding popped
pop_last h n = popped h n (get_elem? h.keys n)

pub settle : Heap → ℕ → ℕ → Heap
settle h i n =
    let swapped = swap h i n in
    let (lowered, place) = down n swapped i n in if ltb i place then lowered else up i lowered i

-- `heap.Remove`.
unfoldable pub remove : Heap → ℕ → Heap
unfolding settle
remove h i =
    let n = length h.keys - 1 in
    let settled = settle h i n in pop_last (if eqb n i then h else settled) n
