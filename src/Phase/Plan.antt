-- ===== src/Phase/Plan.antt =====
-- internal/usecase/phase/plan.go.
pub mod Endings
use agent_claw.Base.{
  ℕ, ◌+◌, String, Bool, true, false, List, [], ◌∷◌, Option, none, some, ◌==◌, ◌⧺◌, if◌then◌else◌,
  trimmed_from, find?, starts_with, trim_space, to_upper, itoa, join, leb, State, pure, ◌>>=◌, ◌>>◌,
}
use agent_claw.Domain.Models.{supervisor_model}
use agent_claw.Domain.Types.{
  Task, Question, PhaseCheckpoint, status_channel, human_channel, phase_plan, phase_implement,
  get_accumulated,
}
use agent_claw.Port.{LlmRequest, LlmResponse, Result, ok, err}
use agent_claw.Reasoning.{with_thinking}
use agent_claw.Phase.Types.{
  Env, Act, World, PhaseResult, PlanOutput, done_result, error_result, restarted_result, call_llm,
  save_task, asking, update, slice_panic,
}
use agent_claw.Phase.Helpers
use agent_claw.Phase.Helpers.{
  truncate, strip_markdown_fences, dispatch_event, dispatch_critical, with_prompt_cache,
}

plan_system : String
plan_system =
    "Write a detailed implementation plan. Return ONLY compact JSON (no whitespace, no markdown fences):\n{\"plan\":\"...\",\"files_to_change\":[\"...\"]}"

review_system : String
review_system =
    "You are Opus, senior engineering supervisor. Review this plan.\nIf sound: respond APPROVED\nIf needs changes: respond REDIRECT: followed by specific guidance"

qa_lines : List Question → String
qa_lines [] = ""
qa_lines (q ∷ qs) =
    (if q.resolved
      then "Q: " ⧺ q.text ⧺ "\nA (" ⧺ q.answered_by ⧺ "): " ⧺ q.answer ⧺ "\n\n"
      else "")
    ⧺ qa_lines qs

-- `buildQAContext`.
unfoldable pub build_qa_context : Task → String
unfolding qa_lines
build_qa_context task = "Resolved Q&A:\n" ⧺ qa_lines task.questions

-- `prevGuidance`.
unfoldable pub prev_guidance : Option PhaseCheckpoint → String
prev_guidance none = ""
prev_guidance (some cp) =
    let g = get_accumulated cp "opus_guidance" in
    if cp.phase == phase_plan then (if g == "" then "" else g) else ""

-- The request for a plan.
unfoldable pub plan_request : Env → Task → String → LlmRequest
unfolding build_qa_context plan_system
plan_request e task guidance =
    let base =
      "Task: "
      ⧺ task.title
      ⧺ "\n\nUnderstanding: "
      ⧺ task.understanding
      ⧺ "\n\n"
      ⧺ build_qa_context task in
    let feedback =
      "\n\n--- Previous plan was rejected. Opus guidance:\n" ⧺ guidance
      ⧺ "\n\nImprove your plan based on this feedback." in
    with_thinking
      (with_prompt_cache (record {
        model = e.agent.model;
        system = plan_system;
        messages =
            record { role = "user"; content = if guidance == "" then base else base ⧺ feedback }
            ∷ [];
        max_tokens = 4096;
        task_id = task.id;
        cache_control = none;
        batch_mode = false;
        thinking = none;
      }))
      phase_plan task.complexity

-- The request for the review of a plan.
unfoldable pub review_request : Env → Task → PlanOutput → LlmRequest
unfolding review_system
review_request e task plan =
    with_thinking
      (with_prompt_cache (record {
        model = supervisor_model e.agent.model;
        system = review_system;
        messages =
            record {
              role = "user";
              content =
                  "Agent: "
                  ⧺ e.agent.id
                  ⧺ "\nTask: "
                  ⧺ task.title
                  ⧺ "\n\nImplementation Plan:\n"
                  ⧺ plan.plan
                  ⧺ "\n\nFiles to change: "
                  ⧺ join ", " plan.files_to_change;
            }
            ∷ [];
        max_tokens = 2048;
        task_id = task.id;
        cache_control = none;
        batch_mode = false;
        thinking = none;
      }))
      phase_plan task.complexity

save_task_step : Env → Act (Option String)
save_task_step e w = asking (save_task w.task) e.save_error w

-- The plan is approved.
after_approved_save : Env → PlanOutput → Option String → Act PhaseResult
after_approved_save e plan (some m) = pure (error_result ("plan: save approved: " ⧺ m))
after_approved_save e plan none = do
  Helpers.delete e
  dispatch_event e "plan.approved" human_channel "" (("plan", truncate plan.plan 300) ∷ [])
  dispatch_event e "phase.transition" status_channel ""
      (("message", "Moving to implementation") ∷ [])
  pure (done_result none)

approve : Env → PlanOutput → Act PhaseResult
unfolding after_approved_save save_task_step
approve e plan = do
  update (λ task. record task {
    plan_approved_by = supervisor_model e.agent.model;
    phase = phase_implement;
  })
  saved ← save_task_step e
  after_approved_save e plan saved

-- The guidance that a verdict gives, or none where the slice panics: the place of the word is that in upper case.
unfoldable pub guidance_of : String → Option String
unfolding trimmed_from
guidance_of verdict = elim (find? (to_upper verdict) "REDIRECT:") [
  | none ↦ some verdict
  | some i ↦ trimmed_from verdict (i + 9)
]

-- The plan is rejected.
give_up : Env → Act PhaseResult
give_up e = do
  dispatch_critical e "plan.failed" human_channel ""
      (("message", "Plan rejected 3 times — manual intervention needed") ∷ [])
  pure (error_result "plan rejected 3 times")

after_redirect_save : Env → String → ℕ → Option String → Act PhaseResult
after_redirect_save e guidance count (some m) = pure (error_result ("plan: save redirect: " ⧺ m))
after_redirect_save e guidance count none = do
  dispatch_event e "plan.redirected" human_channel ""
      (("guidance", guidance) ∷ ("attempt", itoa count ⧺ "/3") ∷ [])
  dispatch_event e "phase.transition" status_channel ""
      (("message", "Plan rejected — improving attempt " ⧺ itoa count ⧺ "/3") ∷ [])
  pure restarted_result

plan_again : Env → String → ℕ → Act PhaseResult
unfolding after_redirect_save save_task_step
plan_again e guidance count = do
  update (λ task. record task { implement_plan = ""; phase = phase_plan })
  (λ w.
      Helpers.save e phase_plan 0 "redirect"
        (("understanding", w.task.understanding)
          ∷ ("opus_guidance", guidance)
          ∷ ("redirect_count", itoa count)
          ∷ [])
        w)
  saved ← save_task_step e
  after_redirect_save e guidance count saved

after_guidance : Env → Option String → Act PhaseResult
unfolding give_up plan_again
after_guidance e none w = (error_result slice_panic, w)
after_guidance e (some guidance) w =
    (if leb 3 w.task.redirect_count then give_up e else plan_again e guidance w.task.redirect_count)
      w

redirect : Env → String → Act PhaseResult
unfolding after_guidance guidance_of
redirect e verdict = do
  update (λ task. record task { redirect_count = task.redirect_count + 1 })
  after_guidance e (guidance_of verdict)

-- Whether a verdict approves the plan.
unfoldable pub is_approved : String → Bool
is_approved verdict = starts_with (to_upper verdict) "APPROVED"

after_review : Env → PlanOutput → Result LlmResponse → Act PhaseResult
unfolding approve redirect is_approved
after_review e plan (err m) =
    pure (error_result ("plan: " ⧺ supervisor_model e.agent.model ⧺ " review: " ⧺ m))
after_review e plan (ok resp) =
    let verdict = trim_space resp.content in
    if is_approved verdict then approve e plan else redirect e verdict

after_parse : Env → Result PlanOutput → Act PhaseResult
unfolding after_review review_request
after_parse e (err m) = pure (error_result ("plan: parse JSON: " ⧺ m))
after_parse e (ok plan) = do
  update (λ task. record task { implement_plan = plan.plan })
  dispatch_event e "plan.submitted" status_channel e.agent.model
      (("message", "Plan submitted for review") ∷ [])
  (λ w.
      Helpers.save e phase_plan 1 "review_plan"
        (("understanding", w.task.understanding) ∷ ("plan_draft", truncate plan.plan 2000) ∷ []) w)
  reviewed ← (λ w. asking (call_llm (review_request e w.task plan)) e.llm_result w)
  after_review e plan reviewed

after_plan : Env → Result LlmResponse → Act PhaseResult
unfolding after_parse
after_plan e (err m) = pure (error_result ("plan: generate: " ⧺ m))
after_plan e (ok resp) = after_parse e (e.parse_plan (strip_markdown_fences resp.content))

-- `Run` of `PlanPhase`.
unfoldable pub run : Env → Option PhaseCheckpoint → Act PhaseResult
unfolding after_plan plan_request prev_guidance build_qa_context
run e checkpoint = do
  (λ w.
      Helpers.save e phase_plan 0 "generate_plan"
        (("understanding", w.task.understanding)
          ∷ ("qa_context", truncate (build_qa_context w.task) 1000)
          ∷ [])
        w)
  planned ←
      (λ w. asking (call_llm (plan_request e w.task (prev_guidance checkpoint))) e.llm_result w)
  after_plan e planned
