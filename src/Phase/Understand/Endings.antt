-- ===== src/Phase/Understand/Endings.antt =====
-- How `Run` of internal/usecase/phase/understand.go ends.
use agent_claw.Base.{
  ℕ, suc, ◌≡◌, refl, ap, subst, ◌∙◌, inl, inr, String, false, List, [], ◌∷◌, ◌++◌, Option, none,
  some, ◌==◌, if◌then◌else◌, Bool-cases, length, ltb, lookup, Bool, true, sym, arith, itoa, ◌⧺◌,
}
use agent_claw.Domain.Types.{
  Task, Question, PhaseCheckpoint, Time, phase_understand, phase_clarify, phase_plan,
  status_channel, get_accumulated,
}
use agent_claw.Port.{LlmRequest, LlmResponse, Result, ok, err}
use agent_claw.Phase.Types.{
  Act, Env, World, PhaseResult, UnderstandOutput, done_result, error_result, call_llm, asking,
  Trace, Effect,
}
use agent_claw.Phase.Helpers
use agent_claw.Phase.Helpers.{checkpoint_of, dispatch_event, strip_markdown_fences, truncate}
use agent_claw.Phase.Keeping.{held, save-task, held-save, save-trace, cons-path}
use agent_claw.Phase.Understand.{
  asked_questions, understood, after_save, save_task_step, after_parse, after_answer,
  call_with_retry, not_parsed, second_attempt, first_attempt, understand_request, after_call,
  restored, user_message, run,
}

-- The phase that follows an answer.
abbrev pub next_phase : UnderstandOutput → String
next_phase out = if ltb 0 (length out.questions) then phase_clarify else phase_plan

-- The model has answered the request about the task, which was made in these calls, and the answer reads as this.
abbrev pub Answered : Env → Task → UnderstandOutput → Trace → Type 0
Answered e t out trace =
    (u : Task) × (resp : LlmResponse) × (before : Trace) × (after : Trace) × (u.id ≡ t.id)
    × (e.llm_result (call_llm (understand_request e (user_message e u) u) ∷ before) ≡ ok resp)
    × (e.parse_understanding (strip_markdown_fences resp.content) ≡ ok out)
    × (trace ≡ after ++ call_llm (understand_request e (user_message e u) u) ∷ before)

-- The questions for these texts, numbered from `i`, none of them answered.
abbrev pub Asked : String → ℕ → List String → List Question → Type 0
Asked id i [] [] = Unit
Asked id i [] (q ∷ qs) = ⊥
Asked id i (text ∷ texts) [] = ⊥
Asked id i (text ∷ texts) (q ∷ qs) =
    (q.text ≡ text)
    × (q.id ≡ id ⧺ "-q" ⧺ itoa i)
    × (q.answer ≡ "")
    × (q.resolved ≡ false)
    × Asked id (suc i) texts qs

-- The understand phase ends with what the model answered in the task, its questions added, in their order and
-- unanswered, and the checkpoint held gives back the understanding; or a collaborator fails.
pub data IsUnderstood (e : Env) (t : Task) : PhaseResult → World → Type 0 where
  understood_task :
      (out : UnderstandOutput) (added : List Question) (cp : PhaseCheckpoint) (w : World)
      → Answered e t out w.trace
      → w.task.redirect_count ≡ t.redirect_count
      → w.task.phase ≡ next_phase out
      → w.task.understanding ≡ out.understanding
      → w.task.assumptions ≡ out.assumptions
      → w.task.risks ≡ out.risks
      → w.task.questions ≡ t.questions ++ added
      → Asked t.id 0 out.questions added
      → held e t.id w.trace ≡ (if e.has_checkpoint then some cp else none)
      → get_accumulated cp "understanding" ≡ out.understanding
      → IsUnderstood e t (done_result none) w
  failed : (m : String) (w : World) → IsUnderstood e t (error_result m) w

asked_questions-Asked :
    (id : String) (at : Time) (i : ℕ) (texts : List String)
    → Asked id i texts (asked_questions id at i texts)
unfolding asked_questions
asked_questions-Asked id at i [] = tt
asked_questions-Asked id at i (text ∷ texts) =
    (refl, refl, refl, refl, asked_questions-Asked id at (suc i) texts)

module _ (e : Env) (t : Task) (out : UnderstandOutput) where
  Answered-∷ : (x : Effect) (tr : Trace) → Answered e t out tr → Answered e t out (x ∷ tr)
  Answered-∷ x tr (u, resp, before, after, i, a, p, h) =
      (u, resp, before, x ∷ after, i, a, p, cons-path h)

  Answered-if :
      (b : Bool) (x : Effect) (tr : Trace)
      → Answered e t out tr
      → Answered e t out (if b then x ∷ tr else tr)
  Answered-if true x tr a = Answered-∷ x tr a
  Answered-if false x tr a = a

module _ (e : Env) (t : Task) where
  after_save-IsUnderstood :
      (out : UnderstandOutput) (at : Time) (cp : PhaseCheckpoint) (u : Task) (saved : Option String)
      (w : World)
      → Answered e t out w.trace
      → u.id ≡ t.id
      → u.redirect_count ≡ t.redirect_count
      → u.questions ≡ t.questions
      → w.task ≡ understood out at u
      → held e t.id w.trace ≡ (if e.has_checkpoint then some cp else none)
      → get_accumulated cp "understanding" ≡ out.understanding
      → IsUnderstood e t (after_save e saved w).0 (after_save e saved w).1
  unfolding after_save dispatch_event understood
  after_save-IsUnderstood out at cp u (some m) w ans i r q h c g = failed _ w
  after_save-IsUnderstood out at cp u none w ans i r q h c g =
      understood_task out (asked_questions u.id at 0 out.questions) cp _
        (Answered-∷ e t out _ w.trace ans) (ap (λ k. k.redirect_count) h ∙ r) (ap (λ k. k.phase) h)
        (ap (λ k. k.understanding) h) (ap (λ k. k.assumptions) h) (ap (λ k. k.risks) h)
        (ap (λ k. k.questions) h ∙ ap (λ k. k ++ asked_questions u.id at 0 out.questions) q)
        (subst (λ id. Asked id 0 out.questions (asked_questions u.id at 0 out.questions)) i
          (asked_questions-Asked u.id at 0 out.questions))
        c g

  after_call-IsUnderstood :
      (result : Result UnderstandOutput) (w : World)
      → w.task.id ≡ t.id
      → w.task.redirect_count ≡ t.redirect_count
      → w.task.questions ≡ t.questions
      → ((out : UnderstandOutput) → result ≡ ok out → Answered e t out w.trace)
      → IsUnderstood e t (after_call e result w).0 (after_call e result w).1
  unfolding after_call save_task_step understood get_accumulated lookup
  after_call-IsUnderstood (err m) w i r q ans = failed _ w
  after_call-IsUnderstood (ok out) w i r q ans =
      let v : World = record w { task = understood out (e.now w.trace) w.task } in
      let notes = ("understanding", out.understanding) ∷ [] in
      let cp = checkpoint_of e (next_phase out) 0 "phase_transition" notes w.task.id in
      let saved =
        subst (λ tr. Answered e t out tr)
          (sym (save-trace e v (next_phase out) 0 "phase_transition" notes))
          (Answered-if e t out e.has_checkpoint _ w.trace (ans out refl)) in
      after_save-IsUnderstood out (e.now w.trace) cp w.task _ _ (Answered-∷ e t out _ _ saved) i r q
        (save-task e v (next_phase out) 0 "phase_transition" notes)
        (subst
          (λ id.
            held e id (Helpers.save e (next_phase out) 0 "phase_transition" notes v).1.trace
            ≡ (if e.has_checkpoint then some cp else none))
          i (held-save e v (next_phase out) 0 "phase_transition" notes))
        refl

-- A part of the phase that leaves the task alone.
abbrev KeepsTask : {A : Type 0} → Act A → Type 0
KeepsTask m = (w : World) → (m w).1.task ≡ w.task

after_answer-KeepsTask :
    (e : Env) (retry : String → Act (Result UnderstandOutput)) (answer : Result LlmResponse)
    → ((m : String) → KeepsTask (retry m))
    → KeepsTask (after_answer e retry answer)
unfolding after_answer after_parse
after_answer-KeepsTask e retry (err m) k w = refl
after_answer-KeepsTask e retry (ok resp) k w =
    after_parse-KeepsTask (retry _) (e.parse_understanding _) (k _) w
  where
    after_parse-KeepsTask :
        (again : Act (Result UnderstandOutput)) (parsed : Result UnderstandOutput)
        → KeepsTask again
        → KeepsTask (after_parse again parsed)
    after_parse-KeepsTask again (ok out) h w = refl
    after_parse-KeepsTask again (err m) h w = h w

second_attempt-KeepsTask : (e : Env) (req : LlmRequest) → KeepsTask (second_attempt e req)
unfolding second_attempt not_parsed
second_attempt-KeepsTask e req w =
    let (second, v) = asking (call_llm req) e.llm_result w in
    after_answer-KeepsTask e not_parsed second (λ m u. refl) v

call_with_retry-KeepsTask : (e : Env) (msg : String) → KeepsTask (call_with_retry e msg)
unfolding call_with_retry first_attempt
call_with_retry-KeepsTask e msg w =
    let req = understand_request e msg w.task in
    let (first, v) = asking (call_llm req) e.llm_result w in
    after_answer-KeepsTask e (λ ignored. second_attempt e req) first
      (λ ignored. second_attempt-KeepsTask e req) v

-- What an attempt returns is what a model has answered to the request.
module _ (e : Env) (t u : Task) (same : u.id ≡ t.id) where
  abbrev req : LlmRequest
  req = understand_request e (user_message e u) u

  abbrev Yields : Result UnderstandOutput × World → Type 0
  Yields o = (out : UnderstandOutput) → o.0 ≡ ok out → Answered e t out o.1.trace

  after_parse-Yields :
      (again : Act (Result UnderstandOutput)) (parsed : Result UnderstandOutput)
      (resp : LlmResponse) (before : Trace) (w : World)
      → w.trace ≡ call_llm req ∷ before
      → e.llm_result (call_llm req ∷ before) ≡ ok resp
      → e.parse_understanding (strip_markdown_fences resp.content) ≡ parsed
      → Yields (again w)
      → Yields (after_parse again parsed w)
  unfolding after_parse
  after_parse-Yields again (ok found) resp before w h a p k out o =
      (u, resp, before, [], same, a, p ∙ o, h)
  after_parse-Yields again (err m) resp before w h a p k out o = k out o

  after_answer-Yields :
      (retry : String → Act (Result UnderstandOutput)) (answer : Result LlmResponse)
      (before : Trace) (w : World)
      → w.trace ≡ call_llm req ∷ before
      → e.llm_result (call_llm req ∷ before) ≡ answer
      → ((m : String) → Yields (retry m w))
      → Yields (after_answer e retry answer w)
  unfolding after_answer
  after_answer-Yields retry (err m) before w h a k = λ out o. absurd (ground (arith, o))
  after_answer-Yields retry (ok resp) before w h a k =
      after_parse-Yields (retry _) _ resp before w h a refl (k _)

  not_parsed-Yields : (m : String) (w : World) → Yields (not_parsed m w)
  unfolding not_parsed
  not_parsed-Yields m w out o = absurd (ground (arith, o))

  second_attempt-Yields : (w : World) → Yields (second_attempt e req w)
  unfolding second_attempt
  second_attempt-Yields w =
      let v : World = record w { trace = call_llm req ∷ w.trace } in
      after_answer-Yields not_parsed (e.llm_result v.trace) w.trace v refl refl
        (λ m. not_parsed-Yields m v)

  first_attempt-Yields : (w : World) → Yields (first_attempt e req w)
  unfolding first_attempt
  first_attempt-Yields w =
      let v : World = record w { trace = call_llm req ∷ w.trace } in
      after_answer-Yields (λ ignored. second_attempt e req) (e.llm_result v.trace) w.trace v refl
        refl (λ m. second_attempt-Yields v)

restored-core :
    (checkpoint : Option PhaseCheckpoint) (t : Task)
    → (restored checkpoint t).id ≡ t.id
      × ((restored checkpoint t).redirect_count ≡ t.redirect_count)
      × ((restored checkpoint t).questions ≡ t.questions)
unfolding restored
restored-core none t = (refl, refl, refl)
restored-core (some cp) t = elim (Bool-cases (cp.phase == phase_understand)) [
  | inr other ↦ rw other (refl, refl, refl)
  | inl same ↦ rw same (elim (Bool-cases (get_accumulated cp "understanding" == "")) [
    | inl empty ↦ rw empty (refl, refl, refl)
    | inr found ↦ rw found (refl, refl, refl)
  ])
]

-- The understand phase ends in one of the ways of `IsUnderstood`, whatever the checkpoint and the collaborators'
-- answers are: without an error the task holds what a model answered in this run, with its questions added.
pub run-IsUnderstood :
    (e : Env) (checkpoint : Option PhaseCheckpoint) (w : World)
    → IsUnderstood e w.task (run e checkpoint w).0 (run e checkpoint w).1
unfolding run dispatch_event call_with_retry
run-IsUnderstood e checkpoint w =
    let v : World =
      (dispatch_event e "phase.transition" status_channel e.agent.model
        (("message", "Starting understand phase") ∷ [])
        (record w { task = restored checkpoint w.task })).1 in
    let notes = ("user_msg", truncate (user_message e v.task) 2000) ∷ [] in
    let x : World = (Helpers.save e phase_understand 0 "llm_call" notes v).1 in
    let saved = save-task e v phase_understand 0 "llm_call" notes in
    let kept = call_with_retry-KeepsTask e (user_message e x.task) x ∙ saved in
    let (i, r, q) = restored-core checkpoint w.task in
    after_call-IsUnderstood e w.task _ _ (ap (λ k. k.id) kept ∙ i)
      (ap (λ k. k.redirect_count) kept ∙ r) (ap (λ k. k.questions) kept ∙ q)
      (first_attempt-Yields e w.task x.task (ap (λ k. k.id) saved ∙ i) x)
