-- ===== src/Guard.antt =====
-- internal/guard: what an agent may run, write, read and say.
pub mod Regex
pub mod Types
pub mod Patterns
pub mod Engine
pub mod Wrappers
