-- ===== src/State/Channel.antt =====
-- crates/juncture-core/src/state/channel.rs: the channels that hold one field of the state.
-- A method on `&mut self` returns the new channel beside its result, or `none` where the reducer
-- panics. `J` is the JSON type of serde; `to_value` and `from_value` are its conversions, with
-- `none` for an error. `from_checkpoint` gives `none` where the program gives an error text.
pub mod Barrier
pub mod Topic
pub mod Ephemeral
pub mod AfterFinish
pub mod Delta
pub mod RingBuffer
