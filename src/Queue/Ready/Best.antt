-- ===== src/Queue/Ready/Best.antt =====
-- The task that `findReady` of internal/queue/queue.go chooses.
use agent_claw.Base.{
  ℕ, ◌≤◌, ◌≡◌, refl, ap, sym, subst, ◌∙◌, inl, inr, ◌⊎◌, Bool, true, false, List, [], ◌∷◌, Option,
  none, some, Dict, arith, Bool-cases, Option-cases,
}
use agent_claw.Queue.Types.{Item, Key, get_elem?}
use agent_claw.Queue.Ready.{deps_ok, Scan, beats, consider, consider_at, scan, scan_start}

-- A key of a list.
pub data Member (k : Key) : List Key → Type 0 where
  here : {ks : List Key} → Member k (k ∷ ks)
  there : {j : Key} {ks : List Key} → Member k ks → Member k (j ∷ ks)

-- An item in the heap whose dependencies are done.
pub record IsReady (done : Dict Bool) (it : Item) : Type 0 where
  pub place : ℕ
  pub in_heap : it.index ≡ some place
  pub deps_done : deps_ok done it.task.depends_on ≡ true

-- The best so far has at least the priority of this item.
abbrev pub AtMost : Item → Option (Key × Item) → Type 0
AtMost it none = ⊥
AtMost it (some (k, best)) = it.task.priority ≤ best.task.priority

module _ (done : Dict Bool) (items : List Item) where
  -- The best so far was chosen from these keys, and is ready; or there was one before.
  abbrev pub ChosenFrom : List Key → Option (Key × Item) → Type 0
  ChosenFrom ks none = Unit
  ChosenFrom ks (some (k, it)) = Member k ks × (get_elem? items k ≡ some it) × IsReady done it

  -- What one candidate does to the best so far: nothing, unless it is ready and beats it.
  abbrev Takes : Key → Item → Scan → Scan → Type 0
  Takes k it s s' =
      (s'.best ≡ s.best)
        × ((it.index ≡ none) ⊎ (deps_ok done it.task.depends_on ≡ false) ⊎ AtMost it s.best)
      ⊎ (s'.best ≡ some (k, it)) × IsReady done it × (beats it.task.priority s.best ≡ true)

  not_beaten :
      (it : Item) (o : Option (Key × Item)) → beats it.task.priority o ≡ false → AtMost it o
  unfolding beats
  not_beaten it none h = absurd (no h)
    where
      no : true ≡ false → ⊥
      no e = ground arith
  not_beaten it (some (k, best)) h = ground arith

  consider_lem : (k : Key) (it : Item) (s : Scan) → Takes k it s (consider done k it it.index s)
  unfolding consider
  consider_lem k it s = elim (Option-cases it.index) [
    | inl stale ↦ inl (ap (λ i. (consider done k it i s).best) stale, inl stale)
    | inr (place, placed) ↦
        subst (λ i. Takes k it s (consider done k it i s)) (sym placed)
          (elim (Bool-cases (deps_ok done it.task.depends_on)) [
            | inr waits ↦ rw waits (inl (refl, inr (inl refl)))
            | inl deps ↦ rw deps (elim (Bool-cases (beats it.task.priority s.best)) [
              | inr worse ↦ rw worse (inl (refl, inr (inr (not_beaten it s.best worse))))
              | inl better ↦
                  rw better
                    (inr (refl, record { place = place; in_heap = placed; deps_done = deps }, refl))
            ])
          ])
  ]

  beats-AtMost :
      (other it : Item) (k : Key) (o : Option (Key × Item))
      → AtMost other o
      → beats it.task.priority o ≡ true
      → AtMost other (some (k, it))
  unfolding beats
  beats-AtMost other it k none h b = absurd h
  beats-AtMost other it k (some (j, best)) h b = ground (arith, h)

  Takes-AtMost :
      (other it : Item) (k : Key) (s s' : Scan)
      → Takes k it s s'
      → AtMost other s.best
      → AtMost other s'.best
  Takes-AtMost other it k s s' (inl (same, why)) h = subst (λ o. AtMost other o) (sym same) h
  Takes-AtMost other it k s s' (inr (new, ready, better)) h =
      subst (λ o. AtMost other o) (sym new) (beats-AtMost other it k s.best h better)

  -- A ready candidate is at most the best after it.
  Takes-own :
      (it : Item) (k : Key) (s s' : Scan) → Takes k it s s' → IsReady done it → AtMost it s'.best
  Takes-own it k s s' (inl (same, inl stale)) ready =
      absurd (stale_placed it.index ready.place stale ready.in_heap)
    where
      stale_placed : (o : Option ℕ) (n : ℕ) → o ≡ none → o ≡ some n → ⊥
      stale_placed o n e f = cc
  Takes-own it k s s' (inl (same, inr (inl waits))) ready =
      absurd (no (sym ready.deps_done ∙ waits))
    where
      no : true ≡ false → ⊥
      no e = ground arith
  Takes-own it k s s' (inl (same, inr (inr most))) ready = subst (λ o. AtMost it o) (sym same) most
  Takes-own it k s s' (inr (new, r, better)) ready =
      subst (λ o. AtMost it o) (sym new) (omega arith)

  consider_at-AtMost :
      (other : Item) (k : Key) (o : Option Item) (s : Scan)
      → AtMost other s.best
      → AtMost other (consider_at done k o s).best
  unfolding consider_at
  consider_at-AtMost other k none s h = h
  consider_at-AtMost other k (some it) s h =
      Takes-AtMost other it k s (consider done k it it.index s) (consider_lem k it s) h

  consider_at-own :
      (it : Item) (k : Key) (o : Option Item) (s : Scan)
      → o ≡ some it
      → IsReady done it
      → AtMost it (consider_at done k o s).best
  unfolding consider_at
  consider_at-own it k o s e ready =
      subst (λ x. AtMost it (consider_at done k x s).best) (sym e)
        (Takes-own it k s (consider done k it it.index s) (consider_lem k it s) ready)

  scan-AtMost :
      (other : Item) (ks : List Key) (s : Scan)
      → AtMost other s.best
      → AtMost other (scan done items ks s).best
  unfolding scan
  scan-AtMost other [] s h = h
  scan-AtMost other (k ∷ ks) s h =
      scan-AtMost other ks _ (consider_at-AtMost other k (get_elem? items k) s h)

  -- Every candidate that is in the heap and has its dependencies done has at most the priority of the
  -- task that the scan chooses; so when there is one, the scan chooses a task.
  pub scan-best :
      (k : Key) (it : Item) (ks : List Key) (s : Scan)
      → Member k ks
      → get_elem? items k ≡ some it
      → IsReady done it
      → AtMost it (scan done items ks s).best
  unfolding scan
  scan-best k it [] s m at ready = elim m [ ]
  scan-best k it (_ ∷ ks) s here at ready =
      scan-AtMost it ks _ (consider_at-own it k (get_elem? items k) s at ready)
  scan-best k it (j ∷ ks) s (there m) at ready = scan-best k it ks _ m at ready

  consider_at-ChosenFrom :
      (all : List Key) (k : Key) (o : Option Item) (s : Scan)
      → get_elem? items k ≡ o
      → Member k all
      → ChosenFrom all s.best
      → ChosenFrom all (consider_at done k o s).best
  unfolding consider_at
  consider_at-ChosenFrom all k none s at m h = h
  consider_at-ChosenFrom all k (some it) s at m h =
      taken (consider done k it it.index s) (consider_lem k it s)
    where
      taken : (s' : Scan) → Takes k it s s' → ChosenFrom all s'.best
      taken s' (inl (same, why)) = subst (λ o. ChosenFrom all o) (sym same) h
      taken s' (inr (new, ready, better)) = subst (λ o. ChosenFrom all o) (sym new) (m, at, ready)

  scan-ChosenFrom :
      (all ks : List Key) (s : Scan)
      → ((k : Key) → Member k ks → Member k all)
      → ChosenFrom all s.best
      → ChosenFrom all (scan done items ks s).best
  unfolding scan
  scan-ChosenFrom all [] s m h = h
  scan-ChosenFrom all (k ∷ ks) s m h =
      scan-ChosenFrom all ks _ (λ j mj. m j (there mj))
        (consider_at-ChosenFrom all k (get_elem? items k) s refl (m k here) h)

  -- The task that the scan chooses is one of the candidates, is in the heap, and has its dependencies
  -- done.
  pub scan_chooses : (ks : List Key) → ChosenFrom ks (scan done items ks scan_start).best
  scan_chooses ks = scan-ChosenFrom ks ks scan_start (λ k m. m) tt
