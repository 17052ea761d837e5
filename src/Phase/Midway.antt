-- ===== src/Phase/Midway.antt =====
-- internal/usecase/phase/mid_clarify.go: an agent that lacks information in the middle of a phase asks for it.
pub mod Endings
use agent_claw.Base.{
  ℕ, zero, suc, String, Bool, true, false, not, ◌||◌, List, [], ◌∷◌, Option, none, some, ◌==◌, ◌⧺◌,
  if◌then◌else◌, itoa, contains, State, pure, ◌>>=◌, ◌>>◌, Dict, insert,
}
use agent_claw.Domain.Project.{MidClarifyResult}
use agent_claw.Domain.Types.{Task, ExecutionPhase, EscalationResult, status_channel}
use agent_claw.Port.{EscalatorRequest, Result, ok, err}
use agent_claw.Phase.Types.{Env, Act, World, resolve, asking}
use agent_claw.Phase.Helpers
use agent_claw.Phase.Helpers.{dispatch_event, strip_markdown_fences}

-- `MidPhaseClarifyInstruction`.
abbrev pub mid_phase_clarify_instruction : String
mid_phase_clarify_instruction =
    "\nIMPORTANT: If you lack information needed to complete the task, do NOT guess or assume.\nInstead, return ONLY compact JSON:\n{\"needs_clarification\":true,\"questions\":[\"what you need to know\"],\"partial_output\":\"work done so far\",\"context\":\"what you are doing and where you are stuck\"}\nOnly return this when you genuinely cannot proceed. If you have enough info, return your normal output."

-- The answer to add to the next request, or none where the output is a normal one.
abbrev pub Answer : Type 0
Answer = Result (Option String)

numbered : ℕ → List String → String
numbered i [] = ""
numbered i (q ∷ rest) = itoa i ⧺ ". " ⧺ q ⧺ "\n" ⧺ numbered (suc i) rest

-- The text of the questions.
unfoldable pub question_text : ExecutionPhase → MidClarifyResult → String
unfolding numbered
question_text phase r =
    "Agent stuck during "
    ⧺ phase
    ⧺ " phase:\n"
    ⧺ (if r.context == "" then "" else "Context: " ⧺ r.context ⧺ "\n")
    ⧺ "Questions:\n"
    ⧺ numbered 1 r.questions

unfoldable pub stuck_request : Env → ExecutionPhase → ℕ → MidClarifyResult → Task → EscalatorRequest
unfolding question_text
stuck_request e phase step_index r task = record {
  question = question_text phase r;
  task_context = r.context;
  agent_model = e.agent.model;
  agent_role = e.agent.role;
  task_id = task.id;
  question_id = task.id ⧺ "-mid-" ⧺ phase ⧺ "-" ⧺ itoa step_index;
}

-- The answer as it goes into the next request.
unfoldable pub answer_text : EscalationResult → String
answer_text r =
    "\n<!-- CLARIFICATION ANSWER (from " ⧺ r.answered_by ⧺ ") -->\n" ⧺ r.answer
    ⧺ "\n<!-- END CLARIFICATION -->\n"

after_resolve : Result EscalationResult → Act Answer
unfolding answer_text
after_resolve (err m) = pure (err ("mid_clarify: escalate: " ⧺ m))
after_resolve (ok r) =
    if r.needs_human
    then pure (err "mid_clarify: suspended waiting for human")
    else pure (ok (some (answer_text r)))

escalate : Env → ExecutionPhase → ℕ → Dict String → MidClarifyResult → Act Answer
unfolding after_resolve stuck_request question_text
escalate e phase step_index partial_accum r = do
  Helpers.save e phase step_index "mid_clarify" (
      insert "pending_questions" (question_text phase r)
        (insert "partial_output" r.partial_output partial_accum))
  dispatch_event e "question.asked" status_channel e.agent.model
      (("message", question_text phase r) ∷ [])
  answer ← (λ w. asking (resolve (stuck_request e phase step_index r w.task)) e.resolve_result w)
  after_resolve answer

is_empty : List String → Bool
is_empty [] = true
is_empty (q ∷ rest) = false

after_parse : Env → ExecutionPhase → ℕ → Dict String → Result MidClarifyResult → Act Answer
unfolding escalate is_empty
after_parse e phase step_index partial_accum (err m) = pure (ok none)
after_parse e phase step_index partial_accum (ok r) =
    if not r.needs_clarification || is_empty r.questions
    then pure (ok none)
    else escalate e phase step_index partial_accum r

-- `handleMidClarify`, with `json.Unmarshal` at `MidClarifyResult`.
unfoldable pub handle_mid_clarify :
    Env
    → (String → Result MidClarifyResult)
    → String
    → ExecutionPhase
    → ℕ
    → Dict String
    → Act Answer
unfolding after_parse
handle_mid_clarify e parse llm_output phase step_index partial_accum =
    if contains llm_output "needs_clarification"
    then after_parse e phase step_index partial_accum (parse (strip_markdown_fences llm_output))
    else pure (ok none)
