-- ===== src/Orchestrator/Hierarchical.antt =====
-- internal/usecase/orchestrator/hierarchical.go: a model breaks a task down, another assigns the parts,
-- and the parts are run in parallel.
pub mod Division
use agent_claw.Base.{
  ℕ, zero, suc, String, Bool, false, List, [], ◌∷◌, ◌++◌, Option, none, some, ◌⧺◌, take, State,
  pure, ◌>>=◌, ◌>>◌, truncate_with, quote,
}
use agent_claw.Base.Float.{of_nat}
use agent_claw.Domain.Models.{model_opus, model_sonnet}
use agent_claw.Domain.Types.{Task, TaskResult, Event, Time, phase_plan, phase_understand}
use agent_claw.Port.{LlmRequest, LlmResponse, Result, ok, err}
use agent_claw.Reasoning.{with_thinking}
use agent_claw.Phase.Helpers.{strip_markdown_fences}
use agent_claw.Orchestrator.Parallel
use agent_claw.Orchestrator.Parallel.{Memory, Ran}

abbrev pub breakdown_system : String
breakdown_system =
    "Break down this task into subtasks for specialist agents.\nReturn ONLY compact JSON array (no whitespace, no markdown fences):\n[{\"title\":\"...\",\"role\":\"coding|test|docs|review\",\"complexity\":\"S|M|L\",\"model\":\"minimax|glm5|glm-flash|haiku|sonnet\"}]\nMax 8 subtasks."

abbrev pub assign_system : String
assign_system =
    "Review these subtasks and optimize assignment.\nConfirm or reassign models based on complexity.\nReturn same JSON format with updated model fields."

-- `subtaskDef`.
pub record SubtaskDef : Type 0 where
  pub title : String
  pub role : String
  pub complexity : String
  pub model : String

-- What the orchestrator does before the tasks run, newest first in a trace.
pub data Effect : Type 0 where
  call_llm : LlmRequest → Effect
  save_task : Task → Effect

abbrev pub Trace : Type 0
Trace = List Effect

-- The collaborators; `json` at lists of subtasks; the id that is generated at a point of the trace.
pub record Env : Type 0 where
  pub llm_result : Trace → Result LlmResponse
  pub save_error : Trace → Option String
  pub parse_subtasks : String → Result (List SubtaskDef)
  pub subtasks_text : List SubtaskDef → String
  pub generate_id : Trace → String
  pub now : Time

abbrev pub Act : Type 0 → Type 0
Act A = State Trace A

-- The results and the error of `Run`, with the events of the parallel run.
abbrev pub failure : String → Ran
failure m = record { results = []; error = some m; events = [] }

plain_request : String → String → String → Task → LlmRequest
plain_request model system content parent =
    with_thinking
      (record {
        model = model;
        system = system;
        messages = record { role = "user"; content = content } ∷ [];
        max_tokens = 4096;
        task_id = parent.id;
        cache_control = none;
        batch_mode = false;
        thinking = none;
      })
      phase_plan parent.complexity

unfoldable pub breakdown_request : Task → Memory → LlmRequest
unfolding plain_request
breakdown_request parent mem =
    plain_request model_opus breakdown_system
      ("Task: "
        ⧺ parent.title
        ⧺ "\n\nDescription: "
        ⧺ parent.description
        ⧺ "\n\nProject context:\n"
        ⧺ truncate_with "..." mem.project_doc 2400)
      parent

unfoldable pub assign_request : Env → Task → Memory → List SubtaskDef → LlmRequest
unfolding plain_request
assign_request e parent mem defs =
    plain_request model_sonnet assign_system
      ("Subtasks:\n" ⧺ e.subtasks_text defs ⧺ "\n\nAgent context:\n" ⧺ mem.agent_doc) parent

-- The task of a subtask.
unfoldable pub task_of : Env → Task → SubtaskDef → String → Task
task_of e parent sd id = record {
  id = id;
  title = sd.title;
  description = "Subtask of: " ⧺ parent.title;
  agent_id = "";
  agent_role = sd.role;
  status = "pending";
  phase = phase_understand;
  complexity = sd.complexity;
  tags = [];
  understanding = "";
  assumptions = [];
  risks = [];
  questions = [];
  implement_plan = "";
  plan_approved_by = "";
  redirect_count = 0;
  phase_started_at = 0;
  output = "";
  input_tokens = 0;
  output_tokens = 0;
  cost_usd = of_nat 0;
  created_at = e.now;
  updated_at = e.now;
}

after_save : SubtaskDef → Act Ran → Option String → Act Ran
after_save sd next (some m) =
    pure (failure ("hierarchical: save subtask " ⧺ quote sd.title ⧺ ": " ⧺ m))
after_save sd next none = next

-- The loop over the subtasks, with the tasks that were made; then the parallel run.
unfoldable pub create_tasks :
    Env → Parallel.Env → String → Task → Memory → List Task → List SubtaskDef → Act Ran
unfolding after_save
create_tasks e parallel limit parent mem made [] trace =
    (Parallel.run parallel limit made mem, trace)
create_tasks e parallel limit parent mem made (sd ∷ defs) trace =
    let task = task_of e parent sd (e.generate_id trace) in
    let trace' = save_task task ∷ trace in
    after_save sd (create_tasks e parallel limit parent mem (made ++ task ∷ []) defs)
      (e.save_error trace') trace'

-- The subtasks that the second model confirms, or the first ones where its answer does not parse.
unfoldable pub confirmed : List SubtaskDef → Result (List SubtaskDef) → List SubtaskDef
confirmed defs (ok others) = others
confirmed defs (err m) = defs

after_assign :
    Env → Parallel.Env → String → Task → Memory → List SubtaskDef → Result LlmResponse → Act Ran
unfolding create_tasks confirmed
after_assign e parallel limit parent mem defs (err m) =
    pure (failure ("hierarchical: " ⧺ model_sonnet ⧺ " assign: " ⧺ m))
after_assign e parallel limit parent mem defs (ok resp) =
    create_tasks e parallel limit parent mem []
      (confirmed defs (e.parse_subtasks (strip_markdown_fences resp.content)))

after_parse : Env → Parallel.Env → String → Task → Memory → Result (List SubtaskDef) → Act Ran
unfolding after_assign assign_request
after_parse e parallel limit parent mem (err m) =
    pure (failure ("hierarchical: parse breakdown JSON: " ⧺ m))
after_parse e parallel limit parent mem (ok []) =
    pure (failure ("hierarchical: " ⧺ model_opus ⧺ " returned 0 subtasks"))
after_parse e parallel limit parent mem (ok (sd ∷ rest)) = do
  let defs = take 8 (sd ∷ rest)
  answer ← (λ t.
      let asked = call_llm (assign_request e parent mem defs) ∷ t in (e.llm_result asked, asked))
  after_assign e parallel limit parent mem defs answer

after_breakdown : Env → Parallel.Env → String → Task → Memory → Result LlmResponse → Act Ran
unfolding after_parse
after_breakdown e parallel limit parent mem (err m) =
    pure (failure ("hierarchical: " ⧺ model_opus ⧺ " breakdown: " ⧺ m))
after_breakdown e parallel limit parent mem (ok resp) =
    after_parse e parallel limit parent mem (e.parse_subtasks (strip_markdown_fences resp.content))

-- `Run` of `HierarchicalOrchestrator`.
unfoldable pub run : Env → Parallel.Env → String → Task → Memory → Act Ran
unfolding after_breakdown breakdown_request
run e parallel limit parent mem = do
  answer ←
      (λ t. let asked = call_llm (breakdown_request parent mem) ∷ t in (e.llm_result asked, asked))
  after_breakdown e parallel limit parent mem answer
