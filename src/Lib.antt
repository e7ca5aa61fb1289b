-- ===== src/Lib.antt =====
-- Juncture runs a graph of nodes over a shared state in supersteps, in the manner of Pregel: the
-- tasks of a superstep run side by side, their updates are merged into the state, and the changed
-- fields and the routes of the finished nodes decide the tasks of the next superstep. This library
-- models the decisions of the engine, of the state it works on, and of the circuit breakers and
-- budgets that limit it.
--
-- Pregel: crates/juncture-core/src/pregel, with the edges and commands it reads.
--   Types          types.rs, command.rs, edge/types.rs, edge/compiled.rs, edge/mod.rs
--   Versions       scheduler.rs: FieldVersionTracker, VersionsSeen; Bump and Activation prove
--   Schedule       scheduler.rs: compute_next_tasks, process_edge, TriggerToNodes; Requests says what
--                  the outputs ask for; Dedup, Routing, Tasks, Next and Triggers prove
--   Writes         scheduler.rs: apply_writes, the conflict checks; Order, Conflicts, Merge prove
--   Recovery       scheduler.rs: the fallback and error-handler functions; Fallback, Budget prove
--   Gate           loop_.rs: check_circuit_breakers, record_circuit_breaker_results; Blocking
--                  and Outcomes prove
--   Snapshots      loop_.rs: the delta counters, finish_all_channels, consume_triggered_channels;
--                  checkpoint.rs: DeltaCounters; Counting proves
--   Interrupts     interrupt/mod.rs and interrupt/context.rs: signals, should_interrupt, Scratchpad,
--                  __interrupt_impl (Context); runner.rs: match_resume_to_interrupts (Resuming);
--                  Gating proves
--   Loop           loop_.rs: PregelLoop and its construction; the children follow a superstep: Tick
--                  (tick), Superstep (execute_superstep), Merging and AfterTick (after_tick), Saving
--                  (the checkpoints), Run (the loop of graph/compiled.rs around them). Ticking,
--                  Ignored, Keeping, Progress, Quiet, Bounded and Rollback prove
--   BudgetTracker  budget.rs: BudgetConfig, BudgetTracker; Limits proves
-- Graph.Topology: crates/juncture-core/src/graph/topology.rs, TopologyValidator, with the Tarjan
--   search in Tarjan and the whole check in Validate; Links, Search, Checks and Tarjan.Bounded prove.
-- Graph.Builder: crates/juncture-core/src/graph/builder.rs, StateGraph and its compilation; Entering,
--   Building and Compiled prove.
-- Graph.Retry: crates/juncture-core/src/graph/builder.rs, execute_with_retry; Settling proves.
-- Graph.Breaker: crates/juncture-core/src/graph/builder.rs, CircuitBreakerState; Invariant proves.
-- State: crates/juncture-core/src/state.
--   Fields         trait_.rs: FieldsChanged, and the trait State as a record of operations
--   Reducer        channel.rs: the reducers; Batches has lemmas on them
--   Channel        channel.rs: one child for each kind of channel, with its results
--   Messages       messages.rs: the messages and their reducer; Reduction proves
-- Llm.CircuitBreaker: crates/juncture/src/llm/circuit_breaker.rs; Invariant, Transitions and Probes
--   prove.
-- Prelude: numbers, lists, maps, bits and results that the parts share.
--
-- How the code is read. A method on `&mut self` is a function to the object that it leaves, beside
-- its result. A panic of a reducer is `none`, an error a `Result`. Hash maps and hash sets are
-- association lists and lists of names, of which only lookups and membership are used; an index map
-- keeps its order. A router, a reducer, a user's state type, a clock's reading, fresh ids, JSON
-- conversions and the text of a number are arguments. Atomics and loops run one call at a time. A
-- 64-bit or 32-bit counter keeps its wrap-around or its saturation.
--
-- Loops are structural recursion on the list that the code walks, but for three on fuel, which give
-- `none` where they are cut off. The breadth-first search has one unit for the entry and one for
-- each neighbor in the adjacency, since a name is queued once; the recursion of Tarjan's visit has
-- one for each name, since a call numbers a name.
-- The loop around the supersteps has as many rounds as the caller gives.
--
-- How the parts meet. Loop calls Gate before and after the task runner, which is an argument; then
-- Writes, Versions, Snapshots, Schedule and Recovery in the order of after_tick, and Interrupts to
-- decide whether to stop. An environment record holds what the loop calls and does not define: the
-- user's state type, serde, the checkpointer, hashes and the texts of numbers. The `?` of after_tick
-- keeps the changes made before it.
--
-- Not modelled: the task runner but for its matching of resume values, the builder's subgraph
-- mounts, timeout and cache policies, checkpoint stores, subgraphs, streams, model providers,
-- tools, telemetry, tracing and the derive macros. Logging, metrics, callbacks and stream events are left out everywhere. That the
-- components that Tarjan's search finds are the strongly connected ones is not shown.
pub mod Prelude
pub mod Llm
pub mod State
pub mod Pregel
pub mod Graph
