-- ===== src/Domain.antt =====
-- internal/domain: the models and their tiers, and the values that the use cases pass around.
pub mod Models
pub mod Chain
pub mod Types
pub mod Project
