-- ===== src/State.antt =====
-- crates/juncture-core/src/state: the state's fields, its channels and its messages.
pub mod Fields
pub mod Reducer
pub mod Channel
pub mod Messages
mod Tests
