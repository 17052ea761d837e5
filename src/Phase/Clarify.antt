-- ===== src/Phase/Clarify.antt =====
-- internal/usecase/phase/clarify.go.
pub mod Endings
use agent_claw.Base.{
  ℕ, suc, ◌-◌, String, Bool, true, false, List, [], ◌∷◌, ◌++◌, Option, none, some, ◌==◌, ◌⧺◌,
  if◌then◌else◌, State, pure, ◌>>=◌, ◌>>◌,
}
use agent_claw.Domain.Types.{
  Task, Question, EscalationResult, status_channel, phase_clarify, phase_plan, Time,
}
use agent_claw.Port.{EscalatorRequest, Result, ok, err}
use agent_claw.Phase.Types.{
  Env, Act, World, PhaseResult, AgentState, done_result, error_result, suspended_result, save_task,
  resolve, write_state, asking, update, perform,
}
use agent_claw.Phase.Helpers
use agent_claw.Phase.Helpers.{truncate, dispatch_event}

-- The request for a question.
unfoldable pub escalation_request : Env → Task → Question → EscalatorRequest
escalation_request e task q = record {
  question = q.text;
  task_context = task.understanding;
  agent_model = e.agent.model;
  agent_role = e.agent.role;
  task_id = task.id;
  question_id = q.id;
}

unfoldable pub answered_question : EscalationResult → Question → Question
answered_question r q = record q { answer = r.answer; answered_by = r.answered_by; resolved = true }

unfoldable pub blocked_state : Env → Task → Question → Time → AgentState
blocked_state e task q now = record {
  agent_id = e.agent.id;
  role = e.agent.role;
  model = e.agent.model;
  status = "blocked";
  task_id = task.id;
  task_title = task.title;
  progress = "";
  blockers = q.text;
  time_stuck = e.duration_text (now - task.phase_started_at);
  updated_at = now;
}

unfoldable pub running_state : Env → Task → Time → AgentState
running_state e task now = record {
  agent_id = e.agent.id;
  role = e.agent.role;
  model = e.agent.model;
  status = "running";
  task_id = task.id;
  task_title = task.title;
  progress = "moving to plan";
  blockers = "";
  time_stuck = "";
  updated_at = now;
}

save_task_step : Env → Act (Option String)
save_task_step e w = asking (save_task w.task) e.save_error w

-- The question waits for the human.
suspend : Env → Question → Act PhaseResult
unfolding blocked_state
suspend e q = do
  (λ w. perform (write_state e.agent.id (blocked_state e w.task q (e.now w.trace))) w)
  dispatch_event e "question.asked" status_channel ""
      (("message", "Waiting for human — task suspended") ∷ [])
  pure suspended_result

after_save : Env → Question → EscalationResult → Act PhaseResult → Option String → Act PhaseResult
after_save e q r next (some m) = pure (error_result ("clarify: save task: " ⧺ m))
after_save e q r next none = do
  dispatch_event e "question.answered" status_channel "" (
      ("message", "Question resolved by " ⧺ r.answered_by ⧺ " — Q: " ⧺ truncate q.text 80)
      ∷ ("answered_by", r.answered_by)
      ∷ [])
  next

-- The answer is written to the entry of the question, which stands between `before` and `rest`.
record_answer :
    Env
    → List Question
    → Question
    → List Question
    → EscalationResult
    → Act PhaseResult
    → Act PhaseResult
unfolding after_save save_task_step answered_question
record_answer e before q rest r next = do
  update (λ task. record task { questions = before ++ answered_question r q ∷ rest })
  saved ← save_task_step e
  after_save e q r next saved

-- What follows the escalator's answer; `next` goes on with the entry as it is then.
after_resolve :
    Env
    → List Question
    → Question
    → List Question
    → (Question → Act PhaseResult)
    → Result EscalationResult
    → Act PhaseResult
unfolding suspend record_answer answered_question
after_resolve e before q rest next (err m) =
    pure (error_result ("clarify: escalate question " ⧺ q.id ⧺ ": " ⧺ m))
after_resolve e before q rest next (ok r) =
    if r.needs_human
    then suspend e q
    else if r.resolved
    then record_answer e before q rest r (next (answered_question r q))
    else next q

-- The end of the loop.
after_all : Env → Option String → Act PhaseResult
unfolding running_state
after_all e (some m) = pure (error_result ("clarify: save task: " ⧺ m))
after_all e none = do
  (λ w. perform (write_state e.agent.id (running_state e w.task (e.now w.trace))) w)
  pure (done_result none)

finish : Env → Act PhaseResult
unfolding after_all save_task_step
finish e = do
  update (λ task. record task { phase = phase_plan })
  saved ← save_task_step e
  after_all e saved

-- The escalation of an open question.
escalate :
    Env
    → ℕ
    → List Question
    → Question
    → List Question
    → (Question → Act PhaseResult)
    → Act PhaseResult
unfolding after_resolve escalation_request
escalate e i before q rest next = do
  (λ w.
      Helpers.save e phase_clarify i "escalate_question"
        (("question_id", q.id)
          ∷ ("question_text", q.text)
          ∷ ("understanding", w.task.understanding)
          ∷ [])
        w)
  result ← (λ w. asking (resolve (escalation_request e w.task q)) e.resolve_result w)
  after_resolve e before q rest next result

-- The loop: the questions before the i-th, and those from it on.
unfoldable pub clarify_from : Env → ℕ → List Question → List Question → Act PhaseResult
unfolding escalate finish
clarify_from e i before [] = finish e
clarify_from e i before (q ∷ rest) =
    let next : Question → Act PhaseResult = λ q'. clarify_from e (suc i) (before ++ q' ∷ []) rest in
    if q.resolved then next q else escalate e i before q rest next

-- `Run` of `ClarifyPhase`.
unfoldable pub run : Env → Act PhaseResult
unfolding clarify_from
run e w = clarify_from e 0 [] w.task.questions w
