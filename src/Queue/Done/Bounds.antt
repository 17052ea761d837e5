-- ===== src/Queue/Done/Bounds.antt =====
-- The set of done tasks of internal/queue/queue.go stays bounded and agrees with its sequence.
use agent_claw.Base.{
  ℕ, zero, suc, ◌-◌, ◌≤◌, ◌≡◌, refl, ap, sym, ◌∙◌, inl, inr, String, Bool, true, false, ◌||◌, List,
  [], ◌∷◌, ◌++◌, Dict, lookup, insert, delete, lookup-insert, lookup-delete, length, length-append,
  take, ltb, arith, Bool-cases, ◌==◌, if◌then◌else◌, eq_iff, eq_refl,
}
use agent_claw.Queue.Types.{Queue, holds, new}
use agent_claw.Queue.Done.{max_done_ids, half_done_ids, drop, delete_all, evict, record_done}

-- Tasks recorded as done, one after the other.
pub record_all : List String → Queue → Queue
record_all [] q = q
record_all (id ∷ ids) q = record_all ids (record_done id q)

-- Whether an id stands in a sequence, and whether it stands in it once at most.
abbrev pub member : String → List String → Bool
member id [] = false
member id (x ∷ xs) = (x == id) || member id xs

abbrev pub Distinct : List String → Type 0
Distinct [] = Unit
Distinct (x ∷ xs) = (member x xs ≡ false) × Distinct xs

-- The set holds exactly the ids of the sequence, which has no repetition and at most 10000 entries.
pub record IsBounded (q : Queue) : Type 0 where
  pub few : length q.done_seq ≤ max_done_ids
  pub distinct : Distinct q.done_seq
  pub agree : (id : String) → holds (lookup id q.done_ids) ≡ member id q.done_seq

length-drop : (n : ℕ) (xs : List String) → length (drop n xs) ≡ length xs - n
unfolding drop
length-drop zero xs = omega arith
length-drop (suc n) [] = omega arith
length-drop (suc n) (x ∷ xs) = omega (arith, length-drop n xs)

member-append :
    (id : String) (xs ys : List String) → member id (xs ++ ys) ≡ (member id xs || member id ys)
member-append id [] ys = refl
member-append id (x ∷ xs) ys = ground (arith, member-append id xs ys)

holds-insert :
    (id other : String) (m : Dict Bool)
    → holds (lookup other (insert id true m)) ≡ ((id == other) || holds (lookup other m))
holds-insert id other m = elim (Bool-cases (id == other)) [
  | inl e ↦ rw (lookup-insert id other true m, e) refl
  | inr n ↦ rw (lookup-insert id other true m, n) refl
]

holds-delete :
    (id other : String) (m : Dict Bool)
    → holds (lookup other (delete id m)) ≡ (if id == other then false else holds (lookup other m))
holds-delete id other m = elim (Bool-cases (id == other)) [
  | inl e ↦ rw (lookup-delete id other m, e) refl
  | inr n ↦ rw (lookup-delete id other m, n) refl
]

holds-delete_all :
    (ids : List String) (other : String) (m : Dict Bool)
    → holds (lookup other (delete_all ids m))
      ≡ (if member other ids then false else holds (lookup other m))
unfolding delete_all
holds-delete_all [] other m = refl
holds-delete_all (id ∷ ids) other m =
    ground (arith, holds-delete_all ids other (delete id m), holds-delete id other m)

Distinct-append :
    (xs : List String) (id : String) → Distinct xs → member id xs ≡ false → Distinct (xs ++ id ∷ [])
Distinct-append [] id d h = (refl, tt)
Distinct-append (x ∷ xs) id d h = (
  ground (arith, member-append x xs (id ∷ []), eq_iff x id, eq_iff id x, d.0, h),
  Distinct-append xs id d.1 (ground (arith, h)),
)

Distinct-drop : (n : ℕ) (xs : List String) → Distinct xs → Distinct (drop n xs)
unfolding drop
Distinct-drop zero xs d = d
Distinct-drop (suc n) [] d = tt
Distinct-drop (suc n) (x ∷ xs) d = Distinct-drop n xs d.1

-- What is left after the first n are taken away from a sequence without repetition.
member-drop :
    (n : ℕ) (xs : List String) (id : String)
    → Distinct xs
    → member id (drop n xs) ≡ (if member id (take n xs) then false else member id xs)
unfolding drop
member-drop zero xs id d = refl
member-drop (suc n) [] id d = refl
member-drop (suc n) (x ∷ xs) id d = ground (arith, member-drop n xs id d.1, d.0, eq_iff x id)

evict-IsBounded :
    (q : Queue)
    → length q.done_seq ≤ suc max_done_ids
    → Distinct q.done_seq
    → ((id : String) → holds (lookup id q.done_ids) ≡ member id q.done_seq)
    → IsBounded (evict q)
unfolding evict
evict-IsBounded q few distinct agree = record {
  few = omega (arith, few, length-drop half_done_ids q.done_seq);
  distinct = Distinct-drop half_done_ids q.done_seq distinct;
  agree = λ id.
      holds-delete_all (take half_done_ids q.done_seq) id q.done_ids
      ∙ ap (λ b. if member id (take half_done_ids q.done_seq) then false else b) (agree id)
      ∙ sym (member-drop half_done_ids q.done_seq id distinct);
}

member-drop_last :
    (n : ℕ) (xs : List String) (id : String)
    → n ≤ length xs
    → member id (drop n (xs ++ id ∷ [])) ≡ true
unfolding drop
member-drop_last zero xs id h = ground (arith, member-append id xs (id ∷ []), eq_refl id)
member-drop_last (suc n) [] id h = absurd (omega (arith, h))
member-drop_last (suc n) (x ∷ xs) id h = member-drop_last n xs id (omega (arith, h))

-- The queue is bounded and knows the task as done.
abbrev Recorded : String → Queue → Type 0
Recorded id q = IsBounded q × (holds (lookup id q.done_ids) ≡ true)

Recorded-choice :
    (id : String) (b : Bool) (x y : Queue)
    → (b ≡ true → Recorded id x)
    → (b ≡ false → Recorded id y)
    → Recorded id (if b then x else y)
Recorded-choice id true x y h k = h refl
Recorded-choice id false x y h k = k refl

record_done-Recorded : (id : String) (q : Queue) → IsBounded q → Recorded id (record_done id q)
unfolding record_done evict
record_done-Recorded id q b =
    Recorded-choice id (holds (lookup id q.done_ids)) _ _ (λ known. (b, known))
      (λ fresh.
        let one_more = length-append q.done_seq (id ∷ []) in
        let distinct = Distinct-append q.done_seq id b.distinct (sym (b.agree id) ∙ fresh) in
        let agree : (other : String)
            → holds (lookup other (insert id true q.done_ids))
              ≡ member other (q.done_seq ++ id ∷ []) =
          λ other. ground (
            arith,
            holds-insert id other q.done_ids,
            b.agree other,
            member-append other q.done_seq (id ∷ []),
          ) in
        Recorded-choice id (ltb max_done_ids (length (q.done_seq ++ id ∷ []))) _ _
          (λ over.
            let kept = evict-IsBounded _ (omega (arith, one_more, b.few)) distinct agree in
            (
              kept,
              kept.agree id
                  ∙ member-drop_last half_done_ids q.done_seq id (ground (arith, one_more)),
            ))
          (λ fits. (
            record { few = ground arith; distinct = distinct; agree = agree },
            agree id ∙ member-drop_last 0 q.done_seq id (omega arith),
          )))

record_all-IsBounded : (ids : List String) (q : Queue) → IsBounded q → IsBounded (record_all ids q)
unfolding record_all
record_all-IsBounded [] q b = b
record_all-IsBounded (id ∷ ids) q b =
    record_all-IsBounded ids (record_done id q) (record_done-Recorded id q b).0

-- Whatever tasks are recorded as done in a new queue, the set of done tasks and the sequence that
-- bounds it hold the same ids, each once, and at most 10000 of them.
pub record_all-new : (ids : List String) → IsBounded (record_all ids new)
unfolding new lookup
record_all-new ids =
    record_all-IsBounded ids new (record { few = omega arith; distinct = tt; agree = λ id. refl })

-- In such a queue, a task recorded last is known as done, whatever was evicted for it.
pub record_done-holds :
    (id : String) (ids : List String)
    → holds (lookup id (record_done id (record_all ids new)).done_ids) ≡ true
record_done-holds id ids = (record_done-Recorded id _ (record_all-new ids)).1

-- The same items and heap.
abbrev pub SameHeap : Queue → Queue → Type 0
SameHeap q r = (r.items ≡ q.items) × (r.heap ≡ q.heap)

SameHeap-choice :
    (q : Queue) (b : Bool) (x y : Queue)
    → SameHeap q x
    → SameHeap q y
    → SameHeap q (if b then x else y)
SameHeap-choice q true x y h k = h
SameHeap-choice q false x y h k = k

pub record_done-SameHeap : (id : String) (q : Queue) → SameHeap q (record_done id q)
unfolding record_done evict
record_done-SameHeap id q =
    SameHeap-choice q (holds (lookup id q.done_ids)) _ _ (refl, refl)
      (SameHeap-choice q (ltb max_done_ids (length (q.done_seq ++ id ∷ []))) _ _ (refl, refl)
        (refl, refl))
