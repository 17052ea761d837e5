-- ===== src/Phase/Midway/Endings.antt =====
-- How `handleMidClarify` of internal/usecase/phase/mid_clarify.go ends.
use agent_claw.Base.{
  ℕ, ◌≡◌, refl, ◌∙◌, arith, inl, inr, String, true, false, List, [], ◌∷◌, none, some, Dict, ◌≢◌,
  contains, Bool-cases, if◌then◌else◌, insert,
}
use agent_claw.Domain.Project.{MidClarifyResult}
use agent_claw.Domain.Types.{ExecutionPhase, EscalationResult, Event}
use agent_claw.Port.{Result, ok, err}
use agent_claw.Phase.Types.{Env, World, dispatch, resolve, save_checkpoint}
use agent_claw.Phase.Helpers.{dispatch_event, strip_markdown_fences, checkpoint_of}
use agent_claw.Phase.Keeping.{save-task, save-trace, cons-path}
use agent_claw.Phase.Midway.{
  Answer, question_text, stuck_request, answer_text, after_resolve, escalate, after_parse, is_empty,
  handle_mid_clarify,
}

-- An output asks for clarification: it has the marker, parses, says so and has questions.
abbrev pub Asks : (String → Result MidClarifyResult) → String → MidClarifyResult → Type 0
Asks parse output r =
    (contains output "needs_clarification" ≡ true)
    × (parse (strip_markdown_fences output) ≡ ok r)
    × (r.needs_clarification ≡ true)
    × (r.questions ≢ [])

empty-nil : (xs : List String) → is_empty xs ≡ true → xs ≡ []
unfolding is_empty
empty-nil [] h = refl
empty-nil (x ∷ xs) h = cc

not_empty-ne-nil : (xs : List String) → is_empty xs ≡ false → xs ≢ []
unfolding is_empty
not_empty-ne-nil [] h = cc
not_empty-ne-nil (x ∷ xs) h = cc

-- What `Asks` fixes: the result that the output parses to.
Asks-result :
    (parse : String → Result MidClarifyResult) (output : String) (r r' : MidClarifyResult)
    → parse (strip_markdown_fences output) ≡ ok r
    → Asks parse output r'
    → (r'.needs_clarification ≡ r.needs_clarification) × (r'.questions ≡ r.questions)
Asks-result parse output r r' p a = ground (arith, p, a)

module _ (e : Env) (parse : String → Result MidClarifyResult) (output : String)
    (phase : ExecutionPhase) (step_index : ℕ) (partial_accum : Dict String) (w : World) where
  -- The state when the question goes out: the work done so far is saved first.
  abbrev pub Sent : MidClarifyResult → World → Type 0
  Sent r u =
      (event : Event) × (u.trace
        ≡ resolve (stuck_request e phase step_index r u.task)
          ∷ dispatch event
          ∷ (if e.has_checkpoint
              then save_checkpoint (
                  checkpoint_of e phase step_index "mid_clarify"
                    (insert "pending_questions" (question_text phase r)
                      (insert "partial_output" r.partial_output partial_accum))
                    w.task.id)
                ∷ w.trace
              else w.trace))
      × (u.task ≡ w.task)

  -- A normal output has no effect at all; a question is sent, and its answer is what the escalator said,
  -- unless the escalator fails or waits for the human.
  pub data IsHandled : Answer → World → Type 0 where
    normal : ((r : MidClarifyResult) → Asks parse output r → ⊥) → IsHandled (ok none) w
    answered :
        (r : MidClarifyResult) (said : EscalationResult) (u : World)
        → Asks parse output r
        → Sent r u
        → e.resolve_result u.trace ≡ ok said
        → said.needs_human ≡ false
        → IsHandled (ok (some (answer_text said))) u
    unanswered :
        (r : MidClarifyResult) (m : String) (u : World)
        → Asks parse output r
        → Sent r u
        → IsHandled (err m) u

  after_resolve-IsHandled :
      (r : MidClarifyResult) (answer : Result EscalationResult) (u : World)
      → Asks parse output r
      → Sent r u
      → e.resolve_result u.trace ≡ answer
      → IsHandled (after_resolve answer u).0 (after_resolve answer u).1
  unfolding after_resolve
  after_resolve-IsHandled r (err m) u a s q = unanswered r _ u a s
  after_resolve-IsHandled r (ok said) u a s q = elim (Bool-cases said.needs_human) [
    | inl human ↦ rw human (unanswered r _ u a s)
    | inr model ↦ rw model (answered r said u a s q model)
  ]

  escalate-IsHandled :
      (r : MidClarifyResult)
      → Asks parse output r
      → IsHandled
          (escalate e phase step_index partial_accum r w).0
          (escalate e phase step_index partial_accum r w).1
  unfolding escalate dispatch_event
  escalate-IsHandled r a =
      after_resolve-IsHandled r _ _ a
        (
          _,
          cons-path (cons-path (save-trace e w phase step_index _ _)),
          save-task e w phase step_index _ _,
        )
        refl

  after_parse-IsHandled :
      (parsed : Result MidClarifyResult)
      → contains output "needs_clarification" ≡ true
      → parse (strip_markdown_fences output) ≡ parsed
      → IsHandled
          (after_parse e phase step_index partial_accum parsed w).0
          (after_parse e phase step_index partial_accum parsed w).1
  unfolding after_parse
  after_parse-IsHandled (err m) c p = normal (λ r a. cc (p, a.1))
  after_parse-IsHandled (ok r) c p = elim (Bool-cases r.needs_clarification) [
    | inr quiet ↦ rw quiet (normal (λ r' a. cc ((Asks-result parse output r r' p a).0, quiet, a.2)))
    | inl needs ↦ elim (Bool-cases (is_empty r.questions)) [
      | inl empty ↦
          rw (needs, empty)
            (normal
              (λ r' a. a.3 ((Asks-result parse output r r' p a).1 ∙ empty-nil r.questions empty)))
      | inr some_left ↦
          rw (needs, some_left)
            (escalate-IsHandled r (c, p, needs, not_empty-ne-nil r.questions some_left))
    ]
  ]

-- An output that asks for clarification is handled in one of the ways of `IsHandled`; any other has no effect.
pub handle_mid_clarify-IsHandled :
    (e : Env) (parse : String → Result MidClarifyResult) (output : String) (phase : ExecutionPhase)
    (step_index : ℕ) (partial_accum : Dict String) (w : World)
    → let handled = handle_mid_clarify e parse output phase step_index partial_accum w in
      IsHandled e parse output phase step_index partial_accum w handled.0 handled.1
unfolding handle_mid_clarify
handle_mid_clarify-IsHandled e parse output phase step_index partial_accum w =
    elim (Bool-cases (contains output "needs_clarification")) [
      | inl c ↦
          rw c (after_parse-IsHandled e parse output phase step_index partial_accum w _ c refl)
      | inr c ↦ rw c (normal (λ r a. cc (a.0, c)))
    ]
