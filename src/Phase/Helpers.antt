-- ===== src/Phase/Helpers.antt =====
-- internal/usecase/phase/helpers.go.
use agent_claw.Base.{
  ℕ, ◌+◌, String, true, [], Option, none, some, Dict, if◌then◌else◌, len, slice, find?, starts_with,
  trim_space, truncate_with, pure, ◌>>=◌,
}
use Prim.Native.String.{[] as nil, ◌∷◌ as ◌cons◌}
use agent_claw.Base.Float.{of_nat}
use agent_claw.Domain.Models.{supports_prompt_cache, cache_ttl_for_content}
use agent_claw.Domain.Types.{ExecutionPhase, Event, Channel, PhaseCheckpoint}
use agent_claw.Port.{LlmRequest, Result, ok, err}
use agent_claw.Phase.Types.{
  Env, Act, World, save_checkpoint, delete_checkpoint, load_checkpoint, dispatch, dispatch_now,
  perform, asking,
}

-- The checkpoint that `saveCheckpoint` builds.
abbrev pub checkpoint_of :
    Env → ExecutionPhase → ℕ → String → Dict String → String → PhaseCheckpoint
checkpoint_of e phase step_index step_name accumulated task_id = record {
  task_id = task_id;
  agent_id = e.agent.id;
  phase = phase;
  step_index = step_index;
  step_name = step_name;
  accumulated = some accumulated;
  pending_query = "";
  pending_query_id = "";
  suspended_model = e.agent.model;
  escalated_to = "";
  last_system_prompt = "";
  last_messages = [];
  last_response = "";
  input_tokens = 0;
  output_tokens = 0;
  cost_usd = of_nat 0;
  saved_at = 0;
}

-- `saveCheckpoint`.
unfoldable pub save : Env → ExecutionPhase → ℕ → String → Dict String → Act (Unit {0})
save e phase step_index step_name accumulated w =
    let cp = checkpoint_of e phase step_index step_name accumulated w.task.id in
    if e.has_checkpoint then perform (save_checkpoint cp) w else (tt, w)

loaded : Result (Option PhaseCheckpoint) → Option PhaseCheckpoint
loaded (ok cp) = cp
loaded (err e) = none

-- `loadCheckpoint`.
unfoldable pub load : Env → Act (Option PhaseCheckpoint)
unfolding loaded
load e w =
    if e.has_checkpoint
    then (do answer ← asking (load_checkpoint w.task.id) e.load_result; pure (loaded answer)) w
    else (none, w)

-- `deleteCheckpoint`.
unfoldable pub delete : Env → Act (Unit {0})
delete e w = if e.has_checkpoint then perform (delete_checkpoint w.task.id) w else (tt, w)

-- An event about the task.
event : Env → String → Channel → String → Dict String → World → Event
event e type channel model payload w = record {
  type = type;
  channel = channel;
  task_id = w.task.id;
  agent_id = e.agent.id;
  agent_role = e.agent.role;
  model = model;
  payload = payload;
  occurred_at = e.now w.trace;
}

-- `dispatchEvent`.
unfoldable pub dispatch_event : Env → String → Channel → String → Dict String → Act (Unit {0})
unfolding event
dispatch_event e type channel model payload w =
    perform (dispatch (event e type channel model payload w)) w

-- `dispatchCritical`, where its error is not used.
unfoldable pub dispatch_critical : Env → String → Channel → String → Dict String → Act (Unit {0})
unfolding event
dispatch_critical e type channel model payload w =
    perform (dispatch_now (event e type channel model payload w)) w

-- `truncate`.
unfoldable pub truncate : String → ℕ → String
truncate s n = truncate_with "…" s n

-- `strings.LastIndex`.
last_index : String → String → Option ℕ
last_index nil t = none
last_index (c cons s) t = elim (last_index s t) [
  | some i ↦ some (len (c cons nil) + i)
  | none ↦ if starts_with (c cons s) t then some 0 else none
]

after_first : String → String → String
after_first t s = elim (find? s t) [ none ↦ s | some i ↦ slice s (i + len t) (len s) ]

before_last : String → String → String
unfolding last_index
before_last t s = elim (last_index s t) [ none ↦ s | some i ↦ slice s 0 i ]

-- `stripMarkdownFences`.
unfoldable pub strip_markdown_fences : String → String
unfolding after_first before_last
strip_markdown_fences raw =
    let s = trim_space raw in
    trim_space (if starts_with s "```" then before_last "```" (after_first "\n" s) else s)

-- The `CacheControl` that each phase sets for a model that supports it.
unfoldable pub with_prompt_cache : LlmRequest → LlmRequest
with_prompt_cache req =
    if supports_prompt_cache req.model
    then record req {
      cache_control = some (record { cache_system = true; ttl = cache_ttl_for_content "system" });
    }
    else req
