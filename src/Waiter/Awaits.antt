-- ===== src/Waiter/Awaits.antt =====
-- A wait of internal/infra/task/waiter.go through the operations of others.
use agent_claw.Base.{
  ℕ, ◌≡◌, ◌≢◌, ◌<◌, refl, sym, ap, subst, ◌∙◌, inl, inr, String, Bool, true, false, List, [], ◌∷◌,
  Option, none, some, ◌==◌, eqb, if◌then◌else◌, Dict, lookup, delete, lookup-insert, lookup-delete,
  All, Bool-cases, eq_iff, arith,
}
use agent_claw.Domain.Types.{TaskResult}
use agent_claw.Port.{Result, err}
use agent_claw.Waiter.{
  EventWaiter, filled, send, handle_done, handle_failed, register, stop, stopped_text,
  signal_waiters, ids_of, received, wait,
}
use agent_claw.Waiter.Runs.{
  Op, registers, waits, completes, fails, stops, apply, run, Spares, first_end, register_cases,
}

eqb_refl : (c : ℕ) → eqb c c ≡ true
eqb_refl c = ground arith

some_eq : (c d : ℕ) → some c ≡ some d → c ≡ d
some_eq c d h = ground (arith, h)

-- A wait of a task on a channel that holds this.
pub record Awaits (id : String) (c : ℕ) (x : Option (Result TaskResult)) (w : EventWaiter)
    : Type 0 where
  pub entry : lookup id w.waiters ≡ some c
  pub own : (t : String) (d : ℕ) → lookup t w.waiters ≡ some d → d ≡ c → t ≡ id
  pub old : c < w.made
  pub holds : w.channels c ≡ x

delete_keeps :
    (id t : String) (waiters : Dict ℕ) (o : Option ℕ)
    → t ≢ id
    → lookup id waiters ≡ o
    → lookup id (delete t waiters) ≡ o
delete_keeps id t waiters o other e = elim (Bool-cases (t == id)) [
  | inl s ↦ absurd (other ((eq_iff t id).0 s))
  | inr s ↦ ground (arith, lookup-delete t id waiters, s, e)
]

-- An entry that is left after another is deleted was there before.
delete_left :
    (key t : String) (d : ℕ) (waiters : Dict ℕ)
    → lookup t (delete key waiters) ≡ some d
    → lookup t waiters ≡ some d
delete_left key t d waiters h = elim (Bool-cases (key == t)) [
  | inl s ↦ absurd (ground (arith, lookup-delete key t waiters, s, h))
  | inr s ↦ ground (arith, lookup-delete key t waiters, s, h)
]

-- What a channel holds that held the first and was sent the second.
unfoldable pub kept :
    Option (Result TaskResult) → Option (Result TaskResult) → Option (Result TaskResult)
kept none later = later
kept (some r) later = some r

kept_sent :
    (b : Bool) (x later : Option (Result TaskResult)) (r : Result TaskResult)
    → kept (if b then filled r x else x) later ≡ kept x (if b then some r else later)
unfolding kept filled
kept_sent true none later r = refl
kept_sent true (some q) later r = refl
kept_sent false none later r = refl
kept_sent false (some q) later r = refl

kept_full :
    (x later : Option (Result TaskResult)) (r : Result TaskResult)
    → kept (kept x (some r)) later ≡ kept x (some r)
unfolding kept
kept_full none later r = refl
kept_full (some q) later r = refl

-- What the end of the waiter tells a task, when these are told.
noticed : String → List String → Option (Result TaskResult)
noticed id [] = none
noticed id (t ∷ ids) =
    let rest = noticed id ids in if t == id then some (err (stopped_text t)) else rest

noticed-ids_of :
    (id : String) (c : ℕ) (waiters : Dict ℕ)
    → lookup id waiters ≡ some c
    → noticed id (ids_of waiters) ≡ some (err (stopped_text id))
unfolding noticed ids_of lookup
noticed-ids_of id c [] h = absurd (ground (arith, h))
noticed-ids_of id c ((t, d) ∷ waiters) h = elim (Bool-cases (t == id)) [
  | inl same ↦ rw same (ap (λ u. some (err (stopped_text u))) ((eq_iff t id).0 same))
  | inr other ↦ rw other (noticed-ids_of id c waiters (ground (arith, h, other)))
]

module _ (id : String) (c : ℕ) where
  sent-Awaits :
      (t : String) (o : Option ℕ) (r : Result TaskResult) (x : Option (Result TaskResult))
      (w : EventWaiter)
      → lookup t w.waiters ≡ o
      → Awaits id c x w
      → Awaits id c (if t == id then filled r x else x) (send o r w)
  unfolding send
  sent-Awaits t none r x w e inv = elim (Bool-cases (t == id)) [
    | inl s ↦
        absurd (ground (arith, e, inv.entry, ap (λ u. lookup u w.waiters) ((eq_iff t id).0 s)))
    | inr s ↦ rw s (record { entry = inv.entry; own = inv.own; old = inv.old; holds = inv.holds })
  ]
  sent-Awaits t (some d) r x w e inv = elim (Bool-cases (t == id)) [
    | inl s ↦
        let same : d ≡ c =
          some_eq d c (sym e ∙ ap (λ u. lookup u w.waiters) ((eq_iff t id).0 s) ∙ inv.entry) in
        rw s (record {
          entry = inv.entry;
          own = inv.own;
          old = inv.old;
          holds = rw (same, eqb_refl c) (ap (filled r) inv.holds);
        })
    | inr s ↦ rw s (record {
      entry = inv.entry;
      own = inv.own;
      old = inv.old;
      holds = elim (Bool-cases (eqb d c)) [
        | inl same ↦
            absurd (ground (arith, s, (eq_iff t id).1, inv.own t d e (ground (arith, same))))
        | inr other ↦ rw other inv.holds
      ];
    })
  ]

  received-Awaits :
      (t : String) (d : ℕ) (o x : Option (Result TaskResult)) (w : EventWaiter)
      → t ≢ id
      → d ≢ c
      → Awaits id c x w
      → Awaits id c x (received t d o w).1
  unfolding received
  received-Awaits t d none x w apart other inv = inv
  received-Awaits t d (some r) x w apart other inv = record {
    entry = delete_keeps id t w.waiters (some c) apart inv.entry;
    own = λ u e h. inv.own u e (delete_left t u e w.waiters h);
    old = inv.old;
    holds = elim (Bool-cases (eqb d c)) [
      | inl same ↦ absurd (other (ground (arith, same)))
      | inr different ↦ rw different inv.holds
    ];
  }

  registered-Awaits :
      (t : String) (x : Option (Result TaskResult)) (w : EventWaiter)
      → t ≢ id
      → Awaits id c x w
      → Awaits id c x (register t w).1
  unfolding register
  registered-Awaits t x w apart inv = register_cases (Awaits id c x) w.closed _ w _ inv (record {
    entry = elim (Bool-cases (t == id)) [
      | inl s ↦ absurd (apart ((eq_iff t id).0 s))
      | inr s ↦ ground (arith, lookup-insert t id w.made w.waiters, s, inv.entry)
    ];
    own = λ u d h same. elim (Bool-cases (t == u)) [
      | inl s ↦ absurd (ground (arith, lookup-insert t u w.made w.waiters, s, h, same, inv.old))
      | inr s ↦ inv.own u d (ground (arith, lookup-insert t u w.made w.waiters, s, h)) same
    ];
    old = omega (arith, inv.old);
    holds = inv.holds;
  })

  deleted-Awaits :
      (t : String) (x : Option (Result TaskResult)) (w : EventWaiter)
      → t ≢ id
      → Awaits id c x w
      → Awaits id c x (record w { waiters = delete t w.waiters })
  deleted-Awaits t x w apart inv = record {
    entry = delete_keeps id t w.waiters (some c) apart inv.entry;
    own = λ u e h. inv.own u e (delete_left t u e w.waiters h);
    old = inv.old;
    holds = inv.holds;
  }

  signalled-Awaits :
      (ids : List String) (x : Option (Result TaskResult)) (w : EventWaiter)
      → Awaits id c x w
      → Awaits id c (kept x (noticed id ids)) (signal_waiters ids w)
  unfolding signal_waiters kept noticed
  signalled-Awaits [] none w inv = inv
  signalled-Awaits [] (some r) w inv = inv
  signalled-Awaits (t ∷ ids) x w inv =
      subst (λ y. Awaits id c y (signal_waiters (t ∷ ids) w)) (kept_sent (t == id) x _ _)
        (signalled-Awaits ids _ _ (sent-Awaits t _ _ x w refl inv))

  stopped-Awaits :
      (x : Option (Result TaskResult)) (w : EventWaiter)
      → Awaits id c x w
      → Awaits id c (kept x (some (err (stopped_text id)))) (stop w)
  unfolding stop
  stopped-Awaits x w inv =
      subst (λ y. Awaits id c (kept x y) (stop w)) (noticed-ids_of id c w.waiters inv.entry)
        (signalled-Awaits (ids_of w.waiters) x (record w { closed = true })
          (record { entry = inv.entry; own = inv.own; old = inv.old; holds = inv.holds }))

  pub run-Awaits :
      (ops : List Op) (x : Option (Result TaskResult)) (w : EventWaiter)
      → All (Spares id c) ops
      → Awaits id c x w
      → Awaits id c (kept x (first_end id ops)) (run ops w)
  unfolding run apply first_end wait handle_done handle_failed kept
  run-Awaits [] none w spared inv = inv
  run-Awaits [] (some r) w spared inv = inv
  run-Awaits (registers t ∷ ops) x w spared inv =
      run-Awaits ops x _ spared.1 (registered-Awaits t x w spared.0 inv)
  run-Awaits (waits none t d ∷ ops) x w spared inv =
      run-Awaits ops x _ spared.1 (received-Awaits t d (w.channels d) x w spared.0.0 spared.0.1 inv)
  run-Awaits (waits (some m) t d ∷ ops) x w spared inv =
      run-Awaits ops x _ spared.1 (deleted-Awaits t x w spared.0.0 inv)
  run-Awaits (completes evt ∷ ops) x w spared inv =
      subst (λ y. Awaits id c y (run ops (handle_done evt w))) (kept_sent (evt.task_id == id) x _ _)
        (run-Awaits ops _ _ spared.1 (sent-Awaits evt.task_id _ _ x w refl inv))
  run-Awaits (fails evt ∷ ops) x w spared inv =
      subst (λ y. Awaits id c y (run ops (handle_failed evt w)))
        (kept_sent (evt.task_id == id) x _ _)
        (run-Awaits ops _ _ spared.1 (sent-Awaits evt.task_id _ _ x w refl inv))
  run-Awaits (stops ∷ ops) x w spared inv =
      subst (λ y. Awaits id c y (run ops (stop w))) (kept_full x _ _)
        (run-Awaits ops _ _ spared.1 (stopped-Awaits x w inv))
