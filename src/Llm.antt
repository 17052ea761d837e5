-- ===== src/Llm.antt =====
-- internal/llm: the router, its circuit breakers and its fallback chain.
pub mod Errors
pub mod Provider
pub mod Breaker
pub mod Types
pub mod Http
pub mod Pricing
pub mod Fallback
pub mod Router
