-- ===== src/Guard/Patterns.antt =====
-- internal/guard/patterns: the tables.
pub mod Commands
pub mod Injection
pub mod Paths
pub mod Secrets
pub mod Workflow
