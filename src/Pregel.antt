-- ===== src/Pregel.antt =====
-- crates/juncture-core/src/pregel: the engine that runs a graph in supersteps.
pub mod Types
mod Tests
mod GateTests
mod LoopTests
mod InterruptTests
pub mod Versions
pub mod Schedule
pub mod Writes
pub mod Recovery
pub mod Gate
pub mod BudgetTracker
pub mod Snapshots
pub mod Interrupts
pub mod Loop
