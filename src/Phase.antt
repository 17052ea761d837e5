-- ===== src/Phase.antt =====
-- internal/usecase/phase: a task goes through understand, clarify, plan and implement. The task is
-- the object that `PhaseContext` points to and that the phases mutate, so it is part of the state.
pub mod Types
pub mod Helpers
pub mod Keeping
pub mod Understand
pub mod Clarify
pub mod Plan
pub mod Implement
pub mod Runner
pub mod Idea
pub mod Midway
