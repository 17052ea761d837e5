-- ===== src/Agent.antt =====
-- internal/agent: the parts that keep a state of their own.
pub mod Replies
pub mod Pool
