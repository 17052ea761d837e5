-- ===== src/Phase/Idea.antt =====
-- internal/usecase/phase/idea_clarify.go: the requirements of a project are collected from the human.
pub mod Endings
use agent_claw.Base.{
  ℕ, zero, suc, ◌+◌, String, Bool, true, false, List, [], ◌∷◌, ◌++◌, Option, none, some, ◌==◌, ◌⧺◌,
  if◌then◌else◌, not, itoa, join, split, State, pure, ◌>>=◌, ◌>>◌, length,
}
use agent_claw.Domain.Models.{model_opus}
use agent_claw.Domain.Project.{ProjectConfig, IdeaClarifyResult}
use agent_claw.Domain.Types.{
  Task, Event, Channel, EscalationResult, PhaseCheckpoint, get_accumulated, status_channel,
  human_channel, phase_idea_clarify, phase_understand,
}
use agent_claw.Port.{LlmRequest, LlmResponse, EscalatorRequest, Result, ok, err}
use agent_claw.Phase.Types.{
  Env, Act, World, PhaseResult, done_result, error_result, suspended_result, call_llm, save_task,
  resolve, dispatch, dispatch_now, perform, asking, update,
}
use agent_claw.Phase.Helpers
use agent_claw.Phase.Helpers.{with_prompt_cache, strip_markdown_fences}

-- `json` at the two types that this phase uses.
pub record Json : Type 0 where
  pub parse_result : String → Result IdeaClarifyResult
  pub config_text : ProjectConfig → String

abbrev pub max_idea_rounds : ℕ
max_idea_rounds = 10

abbrev pub idea_clarify_system : String
idea_clarify_system =
    "You are a product analyst. Your job is to collect COMPLETE requirements from the human.\n\nRULES:\n- NEVER assume or fill in information the human has not explicitly provided.\n- NEVER use default values. If the human has not said it, ASK.\n- Ask ALL missing questions in one batch (do not ask one at a time).\n- After each human reply, re-evaluate: is anything still missing or ambiguous?\n- Only return ready=true when ALL required fields have explicit human answers.\n- If the human's answer is vague (e.g. \"whatever\", \"any\"), ask again with specific options.\n\nREQUIRED fields (must all have human-provided answers):\n1. frontend_framework (Flutter, React Native, Web, SwiftUI, ...)\n2. backend_language (Go, Node.js, Python, Java, ...)\n3. repo_url (GitHub/GitLab repository URL)\n4. repo_structure (mono-repo or multi-repo)\n5. database (PostgreSQL, MySQL, MongoDB, Firebase, SQLite, ...)\n6. auth_method (Google OAuth, email/password, phone OTP, ...)\n7. target_platforms (iOS, Android, Web — can be multiple)\n8. third_party_integrations (payment provider, maps, push notifications, etc. — \"none\" is a valid answer)\n\nReturn ONLY compact JSON (no whitespace, no markdown fences):\nWhen NOT ready: {\"ready\":false,\"questions\":[\"question 1\",\"question 2\"]}\nWhen ready:     {\"ready\":true,\"concept\":\"structured concept summary\",\"config\":{\"frontend_framework\":\"...\",\"backend_language\":\"...\",\"repo_url\":\"...\",\"repo_structure\":\"...\",\"database\":\"...\",\"auth_method\":\"...\",\"target_platforms\":[\"...\"],\"integrations\":[\"...\"]}}"

numbered : String → String → String → ℕ → List String → String
numbered before between after i [] = ""
numbered before between after i (t ∷ rest) =
    before ⧺ itoa i ⧺ between ⧺ t ⧺ after ⧺ numbered before between after (suc i) rest

-- `buildUserMessage`.
unfoldable pub build_user_message : Task → List String → String
unfolding numbered
build_user_message task [] = "Original idea: " ⧺ task.title ⧺ "\n\n" ⧺ task.description ⧺ "\n"
build_user_message task (a ∷ answers) =
    "Original idea: "
    ⧺ task.title
    ⧺ "\n\n"
    ⧺ task.description
    ⧺ "\n"
    ⧺ "\n--- Human answers from previous rounds ---\n"
    ⧺ numbered "Round " " answer: " "\n\n" 1 (a ∷ answers)
    ⧺ "--- End of previous answers ---\n\n"
    ⧺ "Re-evaluate: are ALL required fields now answered? If yes, return ready=true. If not, ask what's still missing.\n"

-- The request of a round.
unfoldable pub idea_request : Task → List String → LlmRequest
unfolding build_user_message
idea_request task answers = with_prompt_cache (record {
  model = model_opus;
  system = idea_clarify_system;
  messages = record { role = "user"; content = build_user_message task answers } ∷ [];
  max_tokens = 2048;
  task_id = task.id;
  cache_control = none;
  batch_mode = false;
  thinking = none;
})

-- The questions of a round in one message.
unfoldable pub question_text : ℕ → List String → String
unfolding numbered
question_text round questions =
    "Project setup — round "
    ⧺ itoa (round + 1)
    ⧺ "/"
    ⧺ itoa max_idea_rounds
    ⧺ ":\n"
    ⧺ numbered "" ". " "\n" 1 questions

unfoldable pub human_request : ℕ → List String → Task → EscalatorRequest
unfolding question_text
human_request round questions task = record {
  question = question_text round questions;
  task_context = task.description;
  agent_model = model_opus;
  agent_role = "idea";
  task_id = task.id;
  question_id = task.id ⧺ "-idea-r" ⧺ itoa round;
}

-- An event of this phase: it names neither a role nor a model.
event : Env → String → Channel → String → String → World → Event
event e type channel agent_id message w = record {
  type = type;
  channel = channel;
  task_id = w.task.id;
  agent_id = agent_id;
  agent_role = "";
  model = "";
  payload = ("message", message) ∷ [];
  occurred_at = e.now w.trace;
}

announce : Env → String → Channel → String → Act (Unit {0})
unfolding event
announce e type channel message w = perform (dispatch (event e type channel e.agent.id message w)) w

-- What a complete answer sets in the task.
unfoldable pub collected : String → Task → Task
collected concept task = record task {
  understanding = concept;
  description = concept;
  phase = phase_understand;
}

save_task_step : Env → Act (Option String)
save_task_step e w = asking (save_task w.task) e.save_error w

after_save : Env → ℕ → Option String → Act PhaseResult
unfolding announce
after_save e round (some m) = pure (error_result ("idea_clarify: save task: " ⧺ m))
after_save e round none = do
  announce e "phase.transition" status_channel
      ("Idea clarification complete after " ⧺ itoa (round + 1) ⧺ " rounds — moving to understand")
  pure (done_result none)

-- All information is there.
complete : Env → Json → ℕ → IdeaClarifyResult → Act PhaseResult
unfolding after_save save_task_step collected
complete e json round r = do
  update (collected r.concept)
  Helpers.save e phase_understand 0 "idea_complete"
      (("project_config", json.config_text r.config) ∷ ("concept", r.concept) ∷ [])
  saved ← save_task_step e
  after_save e round saved

-- What follows the human's answer; `next` is the rest of the loop.
after_answer : ℕ → (String → Act PhaseResult) → Result EscalationResult → Act PhaseResult
after_answer round next (err m) =
    pure (error_result ("idea_clarify: escalate round " ⧺ itoa round ⧺ ": " ⧺ m))
after_answer round next (ok r) = if r.needs_human then pure suspended_result else next r.answer

ask_human : Env → ℕ → List String → (String → Act PhaseResult) → List String → Act PhaseResult
unfolding after_answer question_text human_request announce
ask_human e round answers next [] =
    pure (error_result "idea_clarify: opus returned ready=false with no questions")
ask_human e round answers next (q ∷ questions) = do
  Helpers.save e phase_idea_clarify round "waiting_human"
      (("answers", join "|||" answers) ∷ ("questions", question_text round (q ∷ questions)) ∷ [])
  announce e "question.asked" human_channel (question_text round (q ∷ questions))
  answer ← (λ w. asking (resolve (human_request round (q ∷ questions) w.task)) e.resolve_result w)
  after_answer round next answer

after_parse :
    Env
    → Json
    → ℕ
    → List String
    → (String → Act PhaseResult)
    → Result IdeaClarifyResult
    → Act PhaseResult
unfolding complete ask_human
after_parse e json round answers next (err m) =
    pure (error_result ("idea_clarify: parse JSON round " ⧺ itoa round ⧺ ": " ⧺ m))
after_parse e json round answers next (ok r) =
    if r.ready then complete e json round r else ask_human e round answers next r.questions

after_call :
    Env → Json → ℕ → List String → (String → Act PhaseResult) → Result LlmResponse → Act PhaseResult
unfolding after_parse
after_call e json round answers next (err m) =
    pure (error_result ("idea_clarify round " ⧺ itoa round ⧺ ": " ⧺ m))
after_call e json round answers next (ok resp) =
    after_parse e json round answers next (json.parse_result (strip_markdown_fences resp.content))

exhausted : Env → Act PhaseResult
unfolding event
exhausted e = do
  (λ w.
      perform
        (dispatch_now (
          event e "task.failed" human_channel ""
            ("Idea clarification failed — could not collect complete requirements after "
              ⧺ itoa max_idea_rounds
              ⧺ " rounds")
            w))
        w)
  pure (
      error_result (
        "idea_clarify: exhausted "
        ⧺ itoa max_idea_rounds
        ⧺ " rounds without complete requirements"))

-- The loop, with the rounds that are left and the one that begins.
unfoldable pub rounds : Env → Json → ℕ → ℕ → List String → Act PhaseResult
unfolding exhausted after_call idea_request
rounds e json zero round answers = exhausted e
rounds e json (suc left) round answers = do
  Helpers.save e phase_idea_clarify round "opus_analyze"
      (("answers", join "|||" answers) ∷ ("round", itoa round) ∷ [])
  answer ← (λ w. asking (call_llm (idea_request w.task answers)) e.llm_result w)
  after_call e json round answers (λ said. rounds e json left (suc round) (answers ++ said ∷ []))
      answer

-- The answers that a checkpoint holds.
unfoldable pub previous_answers : Option PhaseCheckpoint → List String
previous_answers none = []
previous_answers (some cp) =
    if cp.phase == phase_idea_clarify
    then (if get_accumulated cp "answers" == ""
        then []
        else split (get_accumulated cp "answers") "|||")
    else []

-- `Run` of `IdeaClarifyPhase`.
unfoldable pub run : Env → Json → Act PhaseResult
unfolding rounds previous_answers
run e json = do
  checkpoint ← Helpers.load e
  rounds e json max_idea_rounds 0 (previous_answers checkpoint)
