-- ===== src/Orchestrator.antt =====
-- internal/usecase/orchestrator: the ways in which a task is run. The test and fix loop is TestFix. The
-- task of an orchestrator is the one that its phase context points to.
pub mod Loop
pub mod Parallel
pub mod Hierarchical
pub mod Route
