-- ===== src/Orchestrator/Hierarchical/Division.antt =====
-- How `Run` of internal/usecase/orchestrator/hierarchical.go divides a task.
use agent_claw.Base.{◌≡◌, String, List, [], ◌∷◌, ◌++◌, take, ◌⧺◌}
use agent_claw.Domain.Types.{Task, phase_understand}
use agent_claw.Port.{LlmResponse, ok}
use agent_claw.Phase.Helpers.{strip_markdown_fences}
use agent_claw.Orchestrator.Parallel
use agent_claw.Orchestrator.Parallel.{Memory, Ran}
use agent_claw.Orchestrator.Hierarchical.{
  SubtaskDef, call_llm, save_task, Trace, Env, failure, breakdown_request, assign_request,
  confirmed, run,
}

-- The saves of some tasks, on top of what was done before.
abbrev pub saved : List Task → Trace → Trace
saved [] t = t
saved (task ∷ tasks) t = saved tasks (save_task task ∷ t)

-- What a task has from its subtask, and from its parent.
abbrev pub Fits : Task → Task → SubtaskDef → Type 0
Fits parent task sd =
    (task.title ≡ sd.title)
    × (task.agent_role ≡ sd.role)
    × (task.complexity ≡ sd.complexity)
    × (task.status ≡ "pending")
    × (task.phase ≡ phase_understand)
    × (task.description ≡ "Subtask of: " ⧺ parent.title)

abbrev pub AllFit : Task → List Task → List SubtaskDef → Type 0
AllFit parent [] [] = Unit
AllFit parent [] (sd ∷ defs) = ⊥
AllFit parent (task ∷ tasks) [] = ⊥
AllFit parent (task ∷ tasks) (sd ∷ defs) = Fits parent task sd × AllFit parent tasks defs

-- The division ends with a failure before any task runs, or with the parallel run of one task for each
-- subtask, all of them saved. The subtasks are those of the second model's answer, or at most eight of the
-- first one's, of which there is one at least.
pub data IsDivided (e : Env) (parallel : Parallel.Env) (limit : String) (parent : Task)
    (mem : Memory) (t : Trace) : Ran → Trace → Type 0 where
  stopped : (m : String) (t' : Trace) → IsDivided e parallel limit parent mem t (failure m) t'
  divided :
      (sd : SubtaskDef) (rest defs : List SubtaskDef) (first second : LlmResponse)
      (tasks : List Task)
      → e.llm_result (call_llm (breakdown_request parent mem) ∷ t) ≡ ok first
      → e.parse_subtasks (strip_markdown_fences first.content) ≡ ok (sd ∷ rest)
      → e.llm_result (
          call_llm (assign_request e parent mem (take 8 (sd ∷ rest)))
          ∷ call_llm (breakdown_request parent mem)
          ∷ t)
        ≡ ok second
      → defs
        ≡ confirmed (take 8 (sd ∷ rest)) (e.parse_subtasks (strip_markdown_fences second.content))
      → AllFit parent tasks defs
      → IsDivided e parallel limit parent mem t (Parallel.run parallel limit tasks mem) (
          saved tasks (
            call_llm (assign_request e parent mem (take 8 (sd ∷ rest)))
            ∷ call_llm (breakdown_request parent mem)
            ∷ t))

module _ (e : Env) (parallel : Parallel.Env) (limit : String) (parent : Task) (mem : Memory) where
  -- The loop from some tasks on: it stops, or has made and saved a task for each subtask.
  pub data IsMade (made : List Task) (defs : List SubtaskDef) (t : Trace)
      : Ran → Trace → Type 0 where
    not_saved : (m : String) (t' : Trace) → IsMade made defs t (failure m) t'
    all_saved :
        (tasks all : List Task)
        → AllFit parent tasks defs
        → all ≡ made ++ tasks
        → IsMade made defs t (Parallel.run parallel limit all mem) (saved tasks t)

  module _ (t : Trace) (sd : SubtaskDef) (rest : List SubtaskDef) (first : LlmResponse)
      (h : e.llm_result (call_llm (breakdown_request parent mem) ∷ t) ≡ ok first)
      (p : e.parse_subtasks (strip_markdown_fences first.content) ≡ ok (sd ∷ rest)) where
    -- The trace when the second model has answered.
    abbrev asked : Trace
    asked =
        call_llm (assign_request e parent mem (take 8 (sd ∷ rest)))
        ∷ call_llm (breakdown_request parent mem)
        ∷ t

  module _ (t : Trace) where
    abbrev broken : Trace
    broken = call_llm (breakdown_request parent mem) ∷ t
