-- ===== src/Queue/Heap/Indexes.antt =====
-- The heap of internal/queue/queue.go keeps the index of each item.
use agent_claw.Base.{
  ℕ, zero, suc, ◌≡◌, ◌↔◌, refl, ap, sym, ◌∙◌, inl, inr, Bool, true, false, List, [], ◌∷◌, Option,
  none, some, eqb, Option-cases, if◌then◌else◌, arith,
}
use agent_claw.Queue.Types.{Item, Key, get_elem?, set}
use agent_claw.Queue.Heap.{Heap, indexed, set_index_of, set_index, swap_keys}

-- The index of an item of the store.
abbrev pub index_of : Option Item → Option ℕ
index_of none = none
index_of (some it) = it.index

abbrev pub index_at : List Item → Key → Option ℕ
index_at items k = index_of (get_elem? items k)

-- The key at a place of the heap is the item whose index is that place.
abbrev pub IsIndexed : Heap → Type 0
IsIndexed h = (i k : ℕ) → (get_elem? h.keys i ≡ some k) ↔ (index_at h.items k ≡ some i)

module _ {A : Type 0} where
  pub get_elem?-set :
      (xs : List A) (i j : ℕ) (x y : A)
      → get_elem? xs i ≡ some x
      → get_elem? (set xs i y) j ≡ (if eqb i j then some y else get_elem? xs j)
  get_elem?-set [] i j x y h = absurd (empty h)
    where
      empty : none ≡ some x → ⊥
      empty e = cc
  get_elem?-set (z ∷ xs) zero zero x y h = ground arith
  get_elem?-set (z ∷ xs) zero (suc j) x y h = ground arith
  get_elem?-set (z ∷ xs) (suc i) zero x y h = ground arith
  get_elem?-set (z ∷ xs) (suc i) (suc j) x y h = ground (arith, get_elem?-set xs i j x y h)

index_of-if :
    (b : Bool) (it : Item) (other : Option Item)
    → index_of (if b then some it else other) ≡ (if b then it.index else index_of other)
index_of-if true it other = refl
index_of-if false it other = refl

pub index_at-set_index :
    (items : List Item) (k j : Key) (o : Option ℕ) (i : ℕ)
    → index_at items k ≡ some i
    → index_at (set_index k o items) j ≡ (if eqb k j then o else index_at items j)
unfolding set_index set_index_of indexed
index_at-set_index items k j o i h = elim (Option-cases (get_elem? items k)) [
  | inl missing ↦ absurd (empty (ap (λ x. index_of x) (sym missing) ∙ h))
  | inr (it, found) ↦
      ap (λ x. index_at (set_index_of k o items x) j) found
      ∙ ap (λ x. index_of x) (get_elem?-set items k j it (indexed o it) found)
      ∙ index_of-if (eqb k j) (indexed o it) (get_elem? items j)
]
  where
    empty : none ≡ some i → ⊥
    empty e = cc

module _ (h : Heap) (i j : ℕ) (a b : Key) (inv : IsIndexed h) (at_i : get_elem? h.keys i ≡ some a)
    (at_j : get_elem? h.keys j ≡ some b) where
  swapped_keys :
      (p : ℕ)
      → get_elem? (set (set h.keys i b) j a) p
        ≡ (if eqb j p then some a else if eqb i p then some b else get_elem? h.keys p)
  swapped_keys p =
      let first = get_elem?-set h.keys i p a b at_i in
      let there = get_elem?-set h.keys i j a b at_i in
      get_elem?-set (set h.keys i b) j p b a (ground (arith, there, at_j))
      ∙ ap (λ o. if eqb j p then some a else o) first

  swapped_indexes :
      (k : Key)
      → index_at (set_index a (some j) (set_index b (some i) h.items)) k
        ≡ (if eqb a k then some j else if eqb b k then some i else index_at h.items k)
  swapped_indexes k =
      let first = index_at-set_index h.items b k (some i) j ((inv j b).0 at_j) in
      let there = index_at-set_index h.items b a (some i) j ((inv j b).0 at_j) in
      index_at-set_index (set_index b (some i) h.items) a k (some j) i
        (there ∙ either (eqb b a) (index_at h.items a) ((inv i a).0 at_i))
      ∙ ap (λ o. if eqb a k then some j else o) first
    where
      either : (c : Bool) (o : Option ℕ) → o ≡ some i → (if c then some i else o) ≡ some i
      either true o e = refl
      either false o e = e

  pub swapped-IsIndexed : IsIndexed (swap_keys h i j (some a) (some b))
  unfolding swap_keys
  swapped-IsIndexed p k =
      let keys = swapped_keys p in
      let indexes = swapped_indexes k in
      let one = inv p k in
      let at_a = inv i a in
      let at_b = inv j b in
      let i_k = inv i k in
      let j_k = inv j k in
      let p_a = inv p a in
      let p_b = inv p b in
      (
        λ e. ground (
          arith,
          keys,
          indexes,
          at_i,
          at_j,
          inv p k,
          inv i a,
          inv j b,
          inv i k,
          inv j k,
          inv p a,
          inv p b,
        ),
        λ e. ground (
          arith,
          keys,
          indexes,
          at_i,
          at_j,
          inv p k,
          inv i a,
          inv j b,
          inv i k,
          inv j k,
          inv p a,
          inv p b,
        ),
      )
