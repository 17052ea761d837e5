-- ===== src/Stores.antt =====
-- internal/infra/state: stores that keep files behind a cache.
pub mod Checkpoints
