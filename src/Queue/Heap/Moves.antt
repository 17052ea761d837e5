-- ===== src/Queue/Heap/Moves.antt =====
-- `up`, `down`, `Push` and `Remove` of the heap of internal/queue/queue.go keep the indexes.
use agent_claw.Base.{
  ℕ, zero, suc, ◌+◌, ◌-◌, ◌*◌, ◌/◌, ◌≤◌, ◌≡◌, refl, ap, ◌∙◌, Bool, true, false, not, ◌||◌, List, [],
  ◌∷◌, ◌++◌, Option, none, some, length, take, eqb, ltb, leb, if◌then◌else◌, arith,
}
use agent_claw.Queue.Types.{Item, Key, get_elem?, set}
use agent_claw.Queue.Heap.{
  Heap, set_index, swap_keys, swap, up, down, child, less, push, popped, pop_last, settle, remove,
}
use agent_claw.Queue.Heap.Indexes.{
  index_of, index_at, IsIndexed, swapped-IsIndexed, index_at-set_index,
}

-- The indexes are right, and the heap has this size.
abbrev pub Keeps : ℕ → Heap → Type 0
Keeps n h = IsIndexed h × (length h.keys ≡ n)

length-set : {A : Type 0} (xs : List A) (i : ℕ) (y : A) → length (set xs i y) ≡ length xs
length-set [] i y = refl
length-set (x ∷ xs) zero y = refl
length-set (x ∷ xs) (suc i) y = ap suc (length-set xs i y)

pub swap_keys-Keeps :
    (n : ℕ) (h : Heap) (i j : ℕ) (a b : Option Key)
    → get_elem? h.keys i ≡ a
    → get_elem? h.keys j ≡ b
    → Keeps n h
    → Keeps n (swap_keys h i j a b)
unfolding swap_keys
swap_keys-Keeps n h i j none none at_i at_j k = k
swap_keys-Keeps n h i j none (some b) at_i at_j k = k
swap_keys-Keeps n h i j (some a) none at_i at_j k = k
swap_keys-Keeps n h i j (some a) (some b) at_i at_j k = (
  swapped-IsIndexed h i j a b k.0 at_i at_j,
  length-set (set h.keys i b) j a ∙ length-set h.keys i b ∙ k.1,
)

swap-Keeps : (n : ℕ) (h : Heap) (i j : ℕ) → Keeps n h → Keeps n (swap h i j)
unfolding swap
swap-Keeps n h i j k = swap_keys-Keeps n h i j _ _ refl refl k

pub Keeps-choice :
    (n : ℕ) (b : Bool) (x y : Heap) → Keeps n x → Keeps n y → Keeps n (if b then x else y)
Keeps-choice n true x y h k = h
Keeps-choice n false x y h k = k

up-Keeps : (n fuel : ℕ) (h : Heap) (j : ℕ) → Keeps n h → Keeps n (up fuel h j)
unfolding up
up-Keeps n zero h j k = k
up-Keeps n (suc fuel) h j k =
    let i = (j - 1) / 2 in
    Keeps-choice n (eqb i j || not (less h j i)) _ _ k
      (up-Keeps n fuel (swap h i j) i (swap-Keeps n h i j k))

KeepsPair-choice :
    (n : ℕ) (b : Bool) (x y : Heap × ℕ) → Keeps n x.0 → Keeps n y.0 → Keeps n (if b then x else y).0
KeepsPair-choice n true x y h k = h
KeepsPair-choice n false x y h k = k

down-Keeps : (n fuel : ℕ) (h : Heap) (i m : ℕ) → Keeps n h → Keeps n (down fuel h i m).0
unfolding down
down-Keeps n zero h i m k = k
down-Keeps n (suc fuel) h i m k =
    let j = child h i m in
    KeepsPair-choice n (leb m (2 * i + 1) || not (less h j i)) _ _ k
      (down-Keeps n fuel (swap h i j) j m (swap-Keeps n h i j k))

pub settle-Keeps : (n : ℕ) (h : Heap) (i m : ℕ) → Keeps n h → Keeps n (settle h i m)
unfolding settle
settle-Keeps n h i m k =
    let (lowered, place) = down m (swap h i m) i m in
    let kept = down-Keeps n m (swap h i m) i m (swap-Keeps n h i m k) in
    Keeps-choice n (ltb i place) lowered _ kept (up-Keeps n i lowered i kept)

get_elem?-snoc :
    {A : Type 0} (xs : List A) (y : A) (p : ℕ)
    → get_elem? (xs ++ y ∷ []) p ≡ (if eqb (length xs) p then some y else get_elem? xs p)
get_elem?-snoc [] y zero = ground arith
get_elem?-snoc [] y (suc p) = ground arith
get_elem?-snoc (x ∷ xs) y zero = ground arith
get_elem?-snoc (x ∷ xs) y (suc p) = ground (arith, get_elem?-snoc xs y p)

pub get_elem?-beyond : {A : Type 0} (xs : List A) (p : ℕ) → length xs ≤ p → get_elem? xs p ≡ none
get_elem?-beyond [] p h = refl
get_elem?-beyond (x ∷ xs) zero h = absurd (omega (arith, h))
get_elem?-beyond (x ∷ xs) (suc p) h = get_elem?-beyond xs p (omega (arith, h))

pub get_elem?-take :
    {A : Type 0} (n : ℕ) (xs : List A) (p : ℕ)
    → get_elem? (take n xs) p ≡ (if ltb p n then get_elem? xs p else none)
get_elem?-take zero xs p = ground arith
get_elem?-take (suc n) [] p = ground arith
get_elem?-take (suc n) (x ∷ xs) zero = ground arith
get_elem?-take (suc n) (x ∷ xs) (suc p) = ground (arith, get_elem?-take n xs p)

popped-IsIndexed :
    (n : ℕ) (h : Heap) (last : Option Key)
    → get_elem? h.keys n ≡ last
    → length h.keys ≤ suc n
    → IsIndexed h
    → IsIndexed (popped h n last)
unfolding popped
popped-IsIndexed n h none at l inv = inv
popped-IsIndexed n h (some k) at l inv = λ p j.
    let keys = get_elem?-take n h.keys p in
    let indexes = index_at-set_index h.items k j none n ((inv n k).0 at) in
    let beyond = get_elem?-beyond h.keys p in
    (
      λ e. ground (arith, keys, indexes, at, inv p j, inv n j, inv p k),
      λ e. ground (arith, keys, indexes, at, inv p j, inv n j, inv p k, beyond),
    )

-- `heap.Remove` keeps the index of each item.
pub remove-IsIndexed : (h : Heap) (i : ℕ) → IsIndexed h → IsIndexed (remove h i)
unfolding remove pop_last
remove-IsIndexed h i inv =
    let n = length h.keys - 1 in
    let moved =
      Keeps-choice (length h.keys) (eqb n i) h (settle h i n) (inv, refl)
        (settle-Keeps (length h.keys) h i n (inv, refl)) in
    popped-IsIndexed n _ _ refl (omega (arith, moved.1)) moved.0

appended-IsIndexed :
    (items : List Item) (keys : List Key) (item : Item) (z : ℕ)
    → item.index ≡ some z
    → IsIndexed (record { items = items; keys = keys })
    → IsIndexed (record {
      items = set_index (length items) (some (length keys)) (items ++ item ∷ []);
      keys = keys ++ length items ∷ [];
    })
appended-IsIndexed items keys item z new inv = λ p j.
    let k = length items in
    let n = length keys in
    let stored = get_elem?-snoc items item in
    let at_k : index_at (items ++ item ∷ []) k ≡ some z =
      ap (λ o. index_of o) (stored k) ∙ ground (arith, new) in
    let indexes = index_at-set_index (items ++ item ∷ []) k j (some n) z at_k in
    let before = ap (λ o. index_of o) (stored j) in
    let fresh : index_at items k ≡ none =
      ap (λ o. index_of o) (get_elem?-beyond items k (omega arith)) in
    let places = get_elem?-snoc keys k p in
    let beyond = get_elem?-beyond keys n (omega arith) in
    (
      λ e. ground (arith, indexes, before, fresh, places, beyond, inv p j, inv n j, inv p k),
      λ e. ground (arith, indexes, before, fresh, places, beyond, inv p j, inv n j, inv p k),
    )

-- `heap.Push` of a new item keeps the index of each item.
pub push-IsIndexed :
    (items : List Item) (keys : List Key) (item : Item) (z : ℕ)
    → item.index ≡ some z
    → IsIndexed (record { items = items; keys = keys })
    → IsIndexed (push (record { items = items ++ item ∷ []; keys = keys }) (length items))
unfolding push
push-IsIndexed items keys item z new inv =
    (up-Keeps _ (length keys) _ (length keys)
      (appended-IsIndexed items keys item z new inv, refl)).0
