-- ===== src/Queue/Heap/Removal.antt =====
-- `Remove` of the heap of internal/queue/queue.go takes out the item at its place.
use agent_claw.Base.{
  ℕ, zero, suc, ◌+◌, ◌-◌, ◌*◌, ◌/◌, ◌≤◌, ◌<◌, ◌≡◌, refl, sym, subst, ◌∙◌, Bool, true, false, not,
  ◌||◌, List, [], ◌∷◌, Option, none, some, length, take, eqb, ltb, leb, if◌then◌else◌, arith,
}
use agent_claw.Queue.Types.{Key, get_elem?, set}
use agent_claw.Queue.Heap.{
  Heap, swap_keys, swap, up, down, child, less, popped, pop_last, settle, remove,
}
use agent_claw.Queue.Heap.Indexes.{index_at, IsIndexed, index_at-set_index, get_elem?-set}
use agent_claw.Queue.Heap.Moves.{Keeps, Keeps-choice, settle-Keeps}

get_elem?-set_other :
    {A : Type 0} (xs : List A) (i p : ℕ) (y : A)
    → eqb i p ≡ false
    → get_elem? (set xs i y) p ≡ get_elem? xs p
get_elem?-set_other [] i p y h = refl
get_elem?-set_other (x ∷ xs) zero zero y h = ground (arith, h)
get_elem?-set_other (x ∷ xs) zero (suc p) y h = refl
get_elem?-set_other (x ∷ xs) (suc i) zero y h = refl
get_elem?-set_other (x ∷ xs) (suc i) (suc p) y h = get_elem?-set_other xs i p y (ground (arith, h))

-- The key at place p stays.
abbrev Same : ℕ → Heap → Heap → Type 0
Same p h h' = get_elem? h'.keys p ≡ get_elem? h.keys p

swap_keys-Same :
    (p : ℕ) (h : Heap) (i j : ℕ) (a b : Option Key)
    → eqb i p ≡ false
    → eqb j p ≡ false
    → Same p h (swap_keys h i j a b)
unfolding swap_keys
swap_keys-Same p h i j none none hi hj = refl
swap_keys-Same p h i j none (some b) hi hj = refl
swap_keys-Same p h i j (some a) none hi hj = refl
swap_keys-Same p h i j (some a) (some b) hi hj =
    get_elem?-set_other (set h.keys i b) j p a hj ∙ get_elem?-set_other h.keys i p b hi

swap-Same : (p : ℕ) (h : Heap) (i j : ℕ) → i < p → j < p → Same p h (swap h i j)
unfolding swap
swap-Same p h i j hi hj = swap_keys-Same p h i j _ _ (ground (arith, hi)) (ground (arith, hj))

Same-choice :
    (p : ℕ) (h : Heap) (b : Bool) (x y : Heap)
    → Same p h x
    → (b ≡ false → Same p h y)
    → Same p h (if b then x else y)
Same-choice p h true x y hx hy = hx
Same-choice p h false x y hx hy = hy refl

up-Same : (p fuel : ℕ) (h : Heap) (j : ℕ) → j < p → Same p h (up fuel h j)
unfolding up
up-Same p zero h j hj = refl
up-Same p (suc fuel) h j hj =
    let i = (j - 1) / 2 in
    Same-choice p h (eqb i j || not (less h j i)) h _ refl
      (λ go. up-Same p fuel (swap h i j) i (omega arith) ∙ swap-Same p h i j (omega arith) hj)

child-lt : (h : Heap) (i n : ℕ) → leb n (2 * i + 1) ≡ false → child h i n < n
unfolding child
child-lt h i n l = ground (arith, l)

SamePair-choice :
    (p : ℕ) (h : Heap) (b : Bool) (x y : Heap × ℕ)
    → Same p h x.0 × (x.1 < p)
    → (b ≡ false → Same p h y.0 × (y.1 < p))
    → Same p h (if b then x else y).0 × ((if b then x else y).1 < p)
SamePair-choice p h true x y hx hy = hx
SamePair-choice p h false x y hx hy = hy refl

-- `down` below p moves only keys below p.
down-Same :
    (p fuel : ℕ) (h : Heap) (i : ℕ)
    → i < p
    → Same p h (down fuel h i p).0 × ((down fuel h i p).1 < p)
unfolding down
down-Same p zero h i hi = (refl, hi)
down-Same p (suc fuel) h i hi =
    let j = child h i p in
    SamePair-choice p h (leb p (2 * i + 1) || not (less h j i)) (h, i) _ (refl, hi)
      (λ go.
        let lower = child-lt h i p (ground (arith, go)) in
        let rest = down-Same p fuel (swap h i j) j lower in
        (rest.0 ∙ swap-Same p h i j hi lower, rest.1))

-- The swap with the last place.
swap_keys-last :
    (h : Heap) (i n : ℕ) (a b : Option Key) (k : Key)
    → get_elem? h.keys i ≡ a
    → get_elem? h.keys n ≡ b
    → a ≡ some k
    → (b ≡ none → ⊥)
    → get_elem? (swap_keys h i n a b).keys n ≡ some k
unfolding swap_keys
swap_keys-last h i n none b k ha hb e f = absurd (missing e)
  where
    missing : none ≡ some k → ⊥
    missing q = cc
swap_keys-last h i n (some a) none k ha hb e f = absurd (f refl)
swap_keys-last h i n (some a) (some b) k ha hb e f =
    let first = get_elem?-set h.keys i n a b ha in
    get_elem?-set (set h.keys i b) n n b a (ground (arith, first, hb)) ∙ ground (arith, e)

settle-last :
    (h : Heap) (i n : ℕ) (k : Key)
    → i < n
    → get_elem? h.keys i ≡ some k
    → (get_elem? h.keys n ≡ none → ⊥)
    → get_elem? (settle h i n).keys n ≡ some k
unfolding settle swap
settle-last h i n k l at last =
    let swapped = swap h i n in
    let lowered = (down n swapped i n).0 in
    let place = (down n swapped i n).1 in
    let first = swap_keys-last h i n _ _ k refl refl at last in
    let down_same = (down-Same n n swapped i l).0 in
    Same-choice n lowered (ltb i place) lowered (up i lowered i) refl
      (λ go. up-Same n i lowered i l)
    ∙ (down_same ∙ first)

get_elem?-within : {A : Type 0} (xs : List A) (p : ℕ) → p < length xs → get_elem? xs p ≡ none → ⊥
get_elem?-within [] p l h = absurd (omega (arith, l))
get_elem?-within (x ∷ xs) zero l h = cc
get_elem?-within (x ∷ xs) (suc p) l h = get_elem?-within xs p (omega (arith, l)) h

length-take : {A : Type 0} (n : ℕ) (xs : List A) → n ≤ length xs → length (take n xs) ≡ n
length-take zero xs h = refl
length-take (suc n) [] h = absurd (omega (arith, h))
length-take (suc n) (x ∷ xs) h = omega (arith, h, length-take n xs (omega (arith, h)))

-- The item at the last place loses its index, and the heap its last place.
popped-removes :
    (h : Heap) (n : ℕ) (k : Key)
    → Keeps (suc n) h
    → get_elem? h.keys n ≡ some k
    → (index_at (pop_last h n).items k ≡ none) × (length (pop_last h n).keys ≡ n)
unfolding pop_last popped
popped-removes h n k kept at =
    let go : (o : Option Key)
        → o ≡ some k
        → (index_at (popped h n o).items k ≡ none) × (length (popped h n o).keys ≡ n) =
      λ o e.
        subst (λ x. (index_at (popped h n x).items k ≡ none) × (length (popped h n x).keys ≡ n))
          (sym e)
          (
            index_at-set_index h.items k k none n ((kept.0 n k).0 at) ∙ ground arith,
            length-take n h.keys (omega (arith, kept.1)),
          ) in
    go (get_elem? h.keys n) at

get_elem?-inside :
    {A : Type 0} (xs : List A) (p : ℕ) (x : A) → get_elem? xs p ≡ some x → p < length xs
get_elem?-inside [] p x h = absurd (absent h)
  where
    absent : none ≡ some x → ⊥
    absent e = cc
get_elem?-inside (y ∷ xs) zero x h = omega arith
get_elem?-inside (y ∷ xs) (suc p) x h = omega (arith, get_elem?-inside xs p x h)

-- The item stands last before it is popped.
moved-last :
    (h : Heap) (i n : ℕ) (k : Key) (b : Bool)
    → eqb n i ≡ b
    → suc n ≡ length h.keys
    → get_elem? h.keys i ≡ some k
    → get_elem? (if b then h else settle h i n).keys n ≡ some k
moved-last h i n k true e l at = subst (λ p. get_elem? h.keys p ≡ some k) (ground (arith, e)) at
moved-last h i n k false e l at =
    let inside = get_elem?-inside h.keys i k at in
    settle-last h i n k (ground (arith, e, l, inside)) at
      (get_elem?-within h.keys n (omega (arith, l)))

-- `heap.Remove` at the place of an item takes the index of this item away, and the heap is shorter by
-- one.
pub remove-removes :
    (h : Heap) (i : ℕ) (k : Key)
    → IsIndexed h
    → get_elem? h.keys i ≡ some k
    → (index_at (remove h i).items k ≡ none) × (length (remove h i).keys + 1 ≡ length h.keys)
unfolding remove
remove-removes h i k inv at =
    let n = length h.keys - 1 in
    let inside = get_elem?-inside h.keys i k at in
    let size : suc n ≡ length h.keys = omega (arith, inside) in
    let kept =
      Keeps-choice (suc n) (eqb n i) h (settle h i n) (inv, sym size)
        (settle-Keeps (suc n) h i n (inv, sym size)) in
    let (gone, shorter) =
      popped-removes (if eqb n i then h else settle h i n) n k kept
        (moved-last h i n k (eqb n i) refl size at) in
    (gone, omega (arith, shorter, size))
