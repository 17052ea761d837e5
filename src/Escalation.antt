-- ===== src/Escalation.antt =====
-- internal/usecase/escalation: a question is answered from the cache, by a model of a higher tier, or
-- by a human. The collaborators answer as a function of all that was done before.
pub mod Types
pub mod Cache
pub mod Chain
