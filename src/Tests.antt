-- ===== src/Tests.antt =====
-- Runs of the modelled code on concrete inputs.
mod Models
mod Breakers
mod Thinking
mod Waiters
mod Calls
mod Escalations
mod Phases
mod Queues
mod Fixes
mod Preflights
mod Pushes
mod Ideas
mod Orchestrators
mod Guards
mod Replies
mod Artifacts
mod Checkpoints
mod Pools
mod Memories
