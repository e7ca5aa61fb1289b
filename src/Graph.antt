-- ===== src/Graph.antt =====
-- crates/juncture-core/src/graph: the checks of a graph, its building, and the circuit breaker and
-- the retries of a node.
pub mod Breaker
pub mod Topology
pub mod Builder
pub mod Retry
mod Tests
mod BuilderTests
mod RetryTests
