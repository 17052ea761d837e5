-- ===== src/Queue/Heap/Fuel.antt =====
-- `up` and `down` of container/heap, as internal/queue/queue.go uses them, end within their fuel.
use agent_claw.Base.{
  ℕ, zero, suc, ◌+◌, ◌-◌, ◌*◌, ◌/◌, ◌≤◌, ◌≡◌, refl, ap, ◌∙◌, Bool, true, false, not, ◌||◌, eqb, leb,
  if◌then◌else◌, arith,
}
use agent_claw.Queue.Heap.{Heap, swap, up, down, child, less}

-- Two continuations that agree where the loop goes on.
if-same :
    {A : Type 0} (b : Bool) (x y z : A)
    → (b ≡ false → y ≡ z)
    → (if b then x else y) ≡ (if b then x else z)
if-same true x y z h = refl
if-same false x y z h = h refl

if-stops : {A : Type 0} (b : Bool) (x y : A) → b ≡ true → (if b then x else y) ≡ x
if-stops true x y h = refl
if-stops false x y h = absurd (no h)
  where
    no : false ≡ true → ⊥
    no e = ground arith

up_more : (fuel : ℕ) (h : Heap) (j : ℕ) → j ≤ fuel → up (suc fuel) h j ≡ up fuel h j
unfolding up
up_more zero h j l =
    if-stops (eqb ((j - 1) / 2) j || not (less h j ((j - 1) / 2))) h _ (ground (arith, l))
up_more (suc fuel) h j l =
    let i = (j - 1) / 2 in
    if-same (eqb i j || not (less h j i)) h _ _ (λ go. up_more fuel (swap h i j) i (omega arith))

child-above : (h : Heap) (i n : ℕ) → i + 1 ≤ child h i n
unfolding child
child-above h i n = ground arith

down_more : (fuel : ℕ) (h : Heap) (i n : ℕ) → n ≤ i + fuel → down (suc fuel) h i n ≡ down fuel h i n
unfolding down
down_more zero h i n l =
    if-stops (leb n (2 * i + 1) || not (less h (child h i n) i)) (h, i) _ (ground (arith, l))
down_more (suc fuel) h i n l =
    let j = child h i n in
    if-same (leb n (2 * i + 1) || not (less h j i)) (h, i) _ _
      (λ go. down_more fuel (swap h i j) j n (omega (arith, l, child-above h i n)))

up_any : (extra j m : ℕ) (h : Heap) → m ≡ extra + j → up m h j ≡ up j h j
up_any zero j m h e = ap (λ k. up k h j) (omega (arith, e))
up_any (suc extra) j m h e =
    ap (λ k. up k h j) (omega (arith, e))
    ∙ up_more (extra + j) h j (omega arith)
    ∙ up_any extra j (extra + j) h refl

down_any : (extra n m i : ℕ) (h : Heap) → m ≡ extra + n → down m h i n ≡ down n h i n
down_any zero n m i h e = ap (λ k. down k h i n) (omega (arith, e))
down_any (suc extra) n m i h e =
    ap (λ k. down k h i n) (omega (arith, e))
    ∙ down_more (extra + n) h i n (omega arith)
    ∙ down_any extra n (extra + n) i h refl

-- More fuel than a place gives `up`, and than the size gives `down`, changes nothing.
fuel_suffices :
    (extra j n i : ℕ) (h : Heap)
    → (up (extra + j) h j ≡ up j h j) × (down (extra + n) h i n ≡ down n h i n)
fuel_suffices extra j n i h =
    (up_any extra j (extra + j) h refl, down_any extra n (extra + n) i h refl)
