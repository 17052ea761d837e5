-- ===== src/Phase/Keeping.antt =====
-- What the helpers of internal/usecase/phase leave alone, and what the store holds after them.
use agent_claw.Base.{
  ℕ, ◌≡◌, refl, ap, inl, inr, String, List, ◌∷◌, Option, none, some, Dict, if◌then◌else◌,
  Bool-cases, eq_refl,
}
use agent_claw.Domain.Types.{Task, ExecutionPhase, PhaseCheckpoint, Question}
use agent_claw.Phase.Types.{Effect, Env, World, Trace, stored, save_checkpoint, delete_checkpoint}
use agent_claw.Phase.Helpers
use agent_claw.Phase.Helpers.{checkpoint_of}

pub cons-path : {x : Effect} {xs ys : Trace} → xs ≡ ys → x ∷ xs ≡ x ∷ ys
cons-path {x} h = ap (λ u. x ∷ u) h

-- What is held for a task: nothing without a store.
abbrev pub held : Env → String → Trace → Option PhaseCheckpoint
held e id t = if e.has_checkpoint then stored id t else none

-- What the plan and the implement phase leave as it is: the id, the title, the complexity, the
-- understanding and the questions.
abbrev pub core : Task → String × String × String × String × List Question
core t = (t.id, t.title, t.complexity, t.understanding, t.questions)

abbrev pub Same : Task → Task → Type 0
Same t u = core u ≡ core t

pub Same-id : (t u : Task) → Same t u → u.id ≡ t.id
Same-id t u s = ap (λ c. c.0) s

module _ (e : Env) (w : World) where
  pub save-task :
      (phase : ExecutionPhase) (i : ℕ) (name : String) (d : Dict String)
      → (Helpers.save e phase i name d w).1.task ≡ w.task
  unfolding Helpers.save
  save-task phase i name d = elim (Bool-cases e.has_checkpoint) [
    | inl h ↦ rw h refl
    | inr h ↦ rw h refl
  ]

  pub save-trace :
      (phase : ExecutionPhase) (i : ℕ) (name : String) (d : Dict String)
      → (Helpers.save e phase i name d w).1.trace ≡ (
          if e.has_checkpoint
          then save_checkpoint (checkpoint_of e phase i name d w.task.id) ∷ w.trace
          else w.trace)
  unfolding Helpers.save
  save-trace phase i name d = elim (Bool-cases e.has_checkpoint) [
    | inl h ↦ rw h refl
    | inr h ↦ rw h refl
  ]

  pub delete-task : (Helpers.delete e w).1.task ≡ w.task
  unfolding Helpers.delete
  delete-task = elim (Bool-cases e.has_checkpoint) [ inl h ↦ rw h refl | inr h ↦ rw h refl ]

  pub delete-trace :
      (Helpers.delete e w).1.trace
      ≡ (if e.has_checkpoint then delete_checkpoint w.task.id ∷ w.trace else w.trace)
  unfolding Helpers.delete
  delete-trace = elim (Bool-cases e.has_checkpoint) [ inl h ↦ rw h refl | inr h ↦ rw h refl ]

  pub load-task : (Helpers.load e w).1.task ≡ w.task
  unfolding Helpers.load
  load-task = elim (Bool-cases e.has_checkpoint) [ inl h ↦ rw h refl | inr h ↦ rw h refl ]

  pub held-delete : held e w.task.id (Helpers.delete e w).1.trace ≡ none
  unfolding Helpers.delete
  held-delete = elim (Bool-cases e.has_checkpoint) [
    | inl h ↦ rw (h, eq_refl w.task.id) refl
    | inr h ↦ rw h refl
  ]

  pub held-save :
      (phase : ExecutionPhase) (i : ℕ) (name : String) (d : Dict String)
      → held e w.task.id (Helpers.save e phase i name d w).1.trace
        ≡ (if e.has_checkpoint then some (checkpoint_of e phase i name d w.task.id) else none)
  unfolding Helpers.save
  held-save phase i name d = elim (Bool-cases e.has_checkpoint) [
    | inl h ↦ rw (h, eq_refl w.task.id) refl
    | inr h ↦ rw h refl
  ]
