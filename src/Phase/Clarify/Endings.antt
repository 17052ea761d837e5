-- ===== src/Phase/Clarify/Endings.antt =====
-- How `Run` of internal/usecase/phase/clarify.go ends.
use agent_claw.Base.{
  ℕ, suc, ◌≡◌, refl, ap, subst, sym, ◌∙◌, inl, inr, ◌⊎◌, String, Bool, true, false, List, [], ◌∷◌,
  ◌++◌, Option, none, some, if◌then◌else◌, Bool-cases, All, append_assoc, append-nil, arith,
}
use agent_claw.Domain.Types.{Question, Event, EscalationResult, phase_clarify, phase_plan}
use agent_claw.Port.{EscalatorRequest, Result, ok, err}
use agent_claw.Phase.Types.{
  Act, Env, World, PhaseResult, Trace, done_result, error_result, suspended_result, dispatch,
  write_state, resolve, Effect,
}
use agent_claw.Phase.Helpers.{dispatch_event}
use agent_claw.Phase.Keeping.{save-task, save-trace, cons-path}
use agent_claw.Phase.Clarify.{
  answered_question, blocked_state, save_task_step, suspend, after_save, record_answer,
  after_resolve, after_all, finish, escalate, escalation_request, clarify_from, run,
}

-- The escalator settles a question: it answers it, or it needs the human.
abbrev pub Settles : Env → Type 0
Settles e =
    (t : Trace) (r : EscalationResult)
    → e.resolve_result t ≡ ok r
    → (r.resolved ≡ true) ⊎ (r.needs_human ≡ true)

abbrev pub AllResolved : List Question → Type 0
AllResolved qs = All (λ q. q.resolved ≡ true) qs

-- What became of a question: one that was resolved is as it was, and any other was asked in these calls, and has the
-- answer that the escalator gave, which did not need the human.
abbrev pub Settled : Env → Trace → Question → Question → Type 0
Settled e trace q q' =
    ((q.resolved ≡ true) × (q' ≡ q))
    ⊎ ((q.resolved ≡ false)
        × (r : EscalationResult) × (req : EscalatorRequest) × (before : Trace) × (after : Trace)
        × (req.question ≡ q.text)
        × (req.question_id ≡ q.id)
        × (e.resolve_result (resolve req ∷ before) ≡ ok r)
        × (r.needs_human ≡ false)
        × (q' ≡ record q { answer = r.answer; answered_by = r.answered_by; resolved = true })
        × (trace ≡ after ++ resolve req ∷ before))

-- The questions of a list, each with what became of it.
abbrev pub AllSettled : Env → Trace → List Question → List Question → Type 0
AllSettled e trace [] [] = Unit
AllSettled e trace [] (q' ∷ qs') = ⊥
AllSettled e trace (q ∷ qs) [] = ⊥
AllSettled e trace (q ∷ qs) (q' ∷ qs') = Settled e trace q q' × AllSettled e trace qs qs'

-- The clarify phase ends with every question settled and goes on to the plan; or the escalator said that an open
-- question needs the human, and right then the phase is suspended with the agent recorded as blocked on it; or a
-- collaborator fails.
pub data IsClarified (e : Env) (asked : List Question) (redirects : ℕ)
    : PhaseResult → World → Type 0 where
  clarified :
      (w : World)
      → w.task.phase ≡ phase_plan
      → w.task.redirect_count ≡ redirects
      → AllSettled e w.trace asked w.task.questions
      → AllResolved w.task.questions
      → IsClarified e asked redirects (done_result none) w
  suspended :
      (done rest : List Question) (q : Question) (r : EscalationResult) (req : EscalatorRequest)
      (event : Event) (now : ℕ) (before : Trace) (w : World)
      → asked ≡ done ++ q ∷ rest
      → q.resolved ≡ false
      → req.question ≡ q.text
      → req.question_id ≡ q.id
      → e.resolve_result (resolve req ∷ before) ≡ ok r
      → r.needs_human ≡ true
      → w.trace
        ≡ dispatch event
          ∷ write_state e.agent.id (blocked_state e w.task q now)
          ∷ resolve req
          ∷ before
      → IsClarified e asked redirects suspended_result w
  failed : (m : String) (w : World) → IsClarified e asked redirects (error_result m) w

module _ (e : Env) where
  Settled-∷ :
      (x : Effect) (tr : Trace) (q q' : Question) → Settled e tr q q' → Settled e (x ∷ tr) q q'
  Settled-∷ x tr q q' (inl was) = inl was
  Settled-∷ x tr q q' (inr (o, r, req, before, after, t, i, a, n, c, h)) =
      inr (o, r, req, before, x ∷ after, t, i, a, n, c, cons-path h)

  AllSettled-∷ :
      (x : Effect) (tr : Trace) (qs qs' : List Question)
      → AllSettled e tr qs qs'
      → AllSettled e (x ∷ tr) qs qs'
  AllSettled-∷ x tr [] [] s = tt
  AllSettled-∷ x tr [] (q' ∷ qs') s = absurd s
  AllSettled-∷ x tr (q ∷ qs) [] s = absurd s
  AllSettled-∷ x tr (q ∷ qs) (q' ∷ qs') s = (Settled-∷ x tr q q' s.0, AllSettled-∷ x tr qs qs' s.1)

  AllSettled-if :
      (b : Bool) (x : Effect) (tr : Trace) (qs qs' : List Question)
      → AllSettled e tr qs qs'
      → AllSettled e (if b then x ∷ tr else tr) qs qs'
  AllSettled-if true x tr qs qs' s = AllSettled-∷ x tr qs qs' s
  AllSettled-if false x tr qs qs' s = s

  AllSettled-append :
      (tr : Trace) (qs qs' : List Question) (q q' : Question)
      → AllSettled e tr qs qs'
      → Settled e tr q q'
      → AllSettled e tr (qs ++ q ∷ []) (qs' ++ q' ∷ [])
  AllSettled-append tr [] [] q q' s one = (one, tt)
  AllSettled-append tr [] (p' ∷ qs') q q' s one = absurd s
  AllSettled-append tr (p ∷ qs) [] q q' s one = absurd s
  AllSettled-append tr (p ∷ qs) (p' ∷ qs') q q' s one =
      (s.0, AllSettled-append tr qs qs' q q' s.1 one)

  Settled-resolved : (tr : Trace) (q q' : Question) → Settled e tr q q' → q'.resolved ≡ true
  Settled-resolved tr q q' (inl (was, same)) = ap (λ k. k.resolved) same ∙ was
  Settled-resolved tr q q' (inr (o, r, req, before, after, t, i, a, n, c, h)) =
      ap (λ k. k.resolved) c

  AllSettled-resolved :
      (tr : Trace) (qs qs' : List Question) → AllSettled e tr qs qs' → AllResolved qs'
  AllSettled-resolved tr [] [] s = tt
  AllSettled-resolved tr [] (q' ∷ qs') s = absurd s
  AllSettled-resolved tr (q ∷ qs) [] s = tt
  AllSettled-resolved tr (q ∷ qs) (q' ∷ qs') s =
      (Settled-resolved tr q q' s.0, AllSettled-resolved tr qs qs' s.1)

module _ (e : Env) (asked : List Question) (redirects : ℕ) where
  -- `m` ends so from any world in which the questions are these, those before settled.
  abbrev Ends : List Question → List Question → List Question → Act PhaseResult → Type 0
  Ends done done' qs m =
      (w : World)
      → w.task.questions ≡ qs
      → w.task.redirect_count ≡ redirects
      → AllSettled e w.trace done done'
      → IsClarified e asked redirects (m w).0 (m w).1

  choice-IsClarified :
      (b : Bool) (m m' : Act PhaseResult) (w : World)
      → (b ≡ true → IsClarified e asked redirects (m w).0 (m w).1)
      → (b ≡ false → IsClarified e asked redirects (m' w).0 (m' w).1)
      → let n : Act PhaseResult = if b then m else m' in
        IsClarified e asked redirects (n w).0 (n w).1
  choice-IsClarified true m m' w h k = h refl
  choice-IsClarified false m m' w h k = k refl

  after_all-IsClarified :
      (saved : Option String) (w : World)
      → w.task.phase ≡ phase_plan
      → w.task.redirect_count ≡ redirects
      → AllSettled e w.trace asked w.task.questions
      → IsClarified e asked redirects (after_all e saved w).0 (after_all e saved w).1
  unfolding after_all
  after_all-IsClarified (some m) w p c s = failed _ w
  after_all-IsClarified none w p c s =
      clarified _ p c (AllSettled-∷ e _ w.trace asked w.task.questions s)
        (AllSettled-resolved e w.trace asked w.task.questions s)

  Ends-finish : (qs : List Question) → Ends asked qs qs (finish e)
  unfolding finish save_task_step
  Ends-finish qs w h c s = after_all-IsClarified _ _ refl c (
      AllSettled-∷ e _ w.trace asked w.task.questions
        (subst (λ k. AllSettled e w.trace asked k) (sym h) s))

  -- One question, which stands between these in the list.
  module _ (done done' rest : List Question) (q : Question) (next : Question → Act PhaseResult)
      (here : asked ≡ done ++ q ∷ rest) (open_yet : q.resolved ≡ false)
      (k : (q' : Question) (v : World)
        → v.task.questions ≡ done' ++ q' ∷ rest
        → v.task.redirect_count ≡ redirects
        → AllSettled e v.trace done done'
        → Settled e v.trace q q'
        → IsClarified e asked redirects (next q' v).0 (next q' v).1) where
    after_save-IsClarified :
        (r : EscalationResult) (q' : Question) (saved : Option String) (v : World)
        → v.task.questions ≡ done' ++ q' ∷ rest
        → v.task.redirect_count ≡ redirects
        → AllSettled e v.trace done done'
        → Settled e v.trace q q'
        → IsClarified e asked redirects
            (after_save e q r (next q') saved v).0
            (after_save e q r (next q') saved v).1
    unfolding after_save dispatch_event
    after_save-IsClarified r q' (some m) v h c s one = failed _ v
    after_save-IsClarified r q' none v h c s one =
        k q' _ h c (AllSettled-∷ e _ v.trace done done' s) (Settled-∷ e _ v.trace q q' one)

    after_resolve-IsClarified :
        (req : EscalatorRequest) (before : Trace) (result : Result EscalationResult) (w : World)
        → req.question ≡ q.text
        → req.question_id ≡ q.id
        → e.resolve_result (resolve req ∷ before) ≡ result
        → ((r : EscalationResult) → result ≡ ok r → (r.resolved ≡ true) ⊎ (r.needs_human ≡ true))
        → w.trace ≡ resolve req ∷ before
        → w.task.redirect_count ≡ redirects
        → AllSettled e w.trace done done'
        → IsClarified e asked redirects
            (after_resolve e done' q rest next result w).0
            (after_resolve e done' q rest next result w).1
    unfolding after_resolve suspend dispatch_event record_answer save_task_step answered_question
    after_resolve-IsClarified req before (err m) w t i a settles h c s = failed _ w
    after_resolve-IsClarified req before (ok r) w t i a settles h c s =
        elim (Bool-cases r.needs_human) [
          | inl human ↦ rw human (
              suspended done rest q r req _ (e.now w.trace) before _ here open_yet t i a human
                (cons-path (cons-path h)))
          | inr no_human ↦ elim (Bool-cases r.resolved) [
            | inl answered ↦
                rw (no_human, answered)
                  (after_save-IsClarified r _ _ _ refl c (AllSettled-∷ e _ w.trace done done' s) (
                    Settled-∷ e _ w.trace q _
                      (inr (open_yet, r, req, before, [], t, i, a, no_human, refl, h))))
            | inr unresolved ↦ absurd (neither r unresolved no_human (settles r refl))
          ]
        ]
      where
        neither :
            (r : EscalationResult)
            → r.resolved ≡ false
            → r.needs_human ≡ false
            → (r.resolved ≡ true) ⊎ (r.needs_human ≡ true)
            → ⊥
        neither r o h s = ground arith

    Ends-escalate :
        Settles e → (i : ℕ) → Ends done done' (done' ++ q ∷ rest) (escalate e i done' q rest next)
    unfolding escalate escalation_request
    Ends-escalate settles i w h c s =
        let kept = save-task e w phase_clarify i "escalate_question" _ in
        let saved =
          subst (λ tr. AllSettled e tr done done')
            (sym (save-trace e w phase_clarify i "escalate_question" _))
            (AllSettled-if e e.has_checkpoint _ w.trace done done' s) in
        after_resolve-IsClarified _ _ _ _ refl refl refl (λ r eq. settles _ r eq) refl
          (ap (λ u. u.redirect_count) kept ∙ c) (AllSettled-∷ e _ _ done done' saved)

  Ends-clarify_from :
      Settles e
      → (i : ℕ) (done done' rest : List Question) → asked ≡ done ++ rest
      → Ends done done' (done' ++ rest) (clarify_from e i done' rest)
  unfolding clarify_from
  Ends-clarify_from settles i done done' [] a w h c s =
      Ends-finish done' w (h ∙ append-nil done') c
        (subst (λ k. AllSettled e w.trace k done') (sym (a ∙ append-nil done)) s)
  Ends-clarify_from settles i done done' (q ∷ rest) a w h c s =
      let go : (q' : Question) (v : World)
          → v.task.questions ≡ done' ++ q' ∷ rest
          → v.task.redirect_count ≡ redirects
          → AllSettled e v.trace done done'
          → Settled e v.trace q q'
          → IsClarified e asked redirects (clarify_from e (suc i) (done' ++ q' ∷ []) rest v).0
              (clarify_from e (suc i) (done' ++ q' ∷ []) rest v).1 =
        λ q' v h' c' s' one.
          Ends-clarify_from settles (suc i) (done ++ q ∷ []) (done' ++ q' ∷ []) rest
            (a ∙ sym (append_assoc done (q ∷ []) rest)) v
            (h' ∙ sym (append_assoc done' (q' ∷ []) rest)) c'
            (AllSettled-append e v.trace done done' q q' s' one) in
      choice-IsClarified q.resolved _ _ w (λ was. go q w h c s (inl (was, refl)))
        (λ open_yet. Ends-escalate done done' rest q _ a open_yet go settles i w h c s)

-- With an escalator that settles every question it answers, the clarify phase ends in one of the ways of
-- `IsClarified`: with every open question answered as the escalator did, or suspended on one that needs the human.
pub run-IsClarified :
    (e : Env) (w : World)
    → Settles e
    → IsClarified e w.task.questions w.task.redirect_count (run e w).0 (run e w).1
unfolding run
run-IsClarified e w settles =
    Ends-clarify_from e w.task.questions w.task.redirect_count settles 0 [] [] w.task.questions refl
      w refl refl tt
