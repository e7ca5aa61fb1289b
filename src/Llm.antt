-- ===== src/Llm.antt =====
-- The crate crates/juncture/src/llm: middleware around model calls.
pub mod CircuitBreaker
mod Tests
