-- ===== src/Pregel/Gate.antt =====
-- crates/juncture-core/src/pregel/loop_.rs: the circuit breakers around a superstep. Tasks whose
-- node's circuit blocks are taken out before it, and the outcomes are recorded after it. Metrics
-- and logging are left out.
pub mod Blocking
pub mod Outcomes
use juncture.Prelude.{
  ℕ, String, true, not, none, some, List, [], ◌∷◌, map, if◌then◌else◌, is_empty, filter, Map,
  lookup, insert, keys, contains,
}
use Prim.Native.String.{◌++◌ as concat}
use juncture.Pregel.Types.{PendingTask, TaskOutput, Command, stay, pull, JunctureError, execution}
use juncture.Graph.Breaker.{
  CircuitBreakerConfig, CircuitBreakerState, new_state, should_allow, mark_half_open_attempt,
  record_success, record_failure,
}

-- The fields of the loop that the gate uses.
pub record Gate (S J : Type 0) : Type 0 where
  pub circuit_breaker_configs : Map CircuitBreakerConfig
  pub circuit_breaker_states : Map CircuitBreakerState
  pub pending_tasks : List (PendingTask S J)

abbrev pub blocked_ids : {U J : Type 0} → List (TaskOutput U J) → List String
blocked_ids [] = []
blocked_ids (o ∷ outputs) = o.task_id ∷ blocked_ids outputs

module _ {S J : Type 0} where
  unfoldable pub set_circuit_breaker_policies : Gate S J → Map CircuitBreakerConfig → Gate S J
  set_circuit_breaker_policies g configs = record g {
    circuit_breaker_configs = configs;
    circuit_breaker_states = map (λ name. (name, new_state)) (keys configs);
  }

-- `show` is the standard library's text of a number.
module _ {S U J : Type 0} (show : ℕ → String) where
  abbrev pub blocked_output : PendingTask S J → ℕ → TaskOutput U J
  blocked_output task failures = record {
    task_id = task.id;
    node_name = task.node_name;
    command = record { update = none; goto = stay };
    trigger = pull;
    triggered_fields = [];
    error = some (
        execution (
          concat "Circuit breaker open for node '" (
            concat task.node_name
              (concat "': " (concat (show failures) " consecutive failures")))));
    circuit_blocked = true;
  }

  -- The loop over the pending tasks: the states it leaves and the outputs of the blocked tasks.
  unfoldable pub check_tasks :
      Map CircuitBreakerConfig
      → ℕ
      → Map CircuitBreakerState
      → List (PendingTask S J)
      → Map CircuitBreakerState × List (TaskOutput U J)
  check_tasks configs now states [] = (states, [])
  check_tasks configs now states (task ∷ tasks) = elim (lookup task.node_name configs) [
    | none ↦ check_tasks configs now states tasks
    | some config ↦ elim (lookup task.node_name states) [
      | none ↦ check_tasks configs now states tasks
      | some state ↦
          let (next, allowed) = should_allow state config now in
          let (left, outputs) = check_tasks configs now (insert task.node_name next states) tasks in
          (
            left,
            if allowed then outputs else blocked_output task next.consecutive_failures ∷ outputs,
          )
    ]
  ]

  unfoldable pub check_circuit_breakers : ℕ → Gate S J → Gate S J × List (TaskOutput U J)
  unfolding check_tasks
  check_circuit_breakers now g =
      if is_empty g.circuit_breaker_configs
      then (g, [])
      else let (states, outputs) =
          check_tasks g.circuit_breaker_configs now g.circuit_breaker_states g.pending_tasks in
        (
          record g {
            circuit_breaker_states = states;
            pending_tasks =
                filter (λ task. not (contains task.id (blocked_ids outputs))) g.pending_tasks;
          },
          outputs,
        )

module _ {U J : Type 0} where
  -- The state of a breaker after one output of its node.
  unfoldable pub record_outcome :
      CircuitBreakerState → CircuitBreakerConfig → ℕ → TaskOutput U J → CircuitBreakerState
  unfolding mark_half_open_attempt
  record_outcome state config now o = elim o.error [
    | some e ↦ record_failure (mark_half_open_attempt state) config now
    | none ↦ record_success (mark_half_open_attempt state)
  ]

  unfoldable pub record_outputs :
      Map CircuitBreakerConfig
      → ℕ
      → Map CircuitBreakerState
      → List (TaskOutput U J)
      → Map CircuitBreakerState
  unfolding record_outcome
  record_outputs configs now states [] = states
  record_outputs configs now states (o ∷ outputs) = elim (lookup o.node_name configs) [
    | none ↦ record_outputs configs now states outputs
    | some config ↦ elim (lookup o.node_name states) [
      | none ↦ record_outputs configs now states outputs
      | some state ↦
          record_outputs configs now (insert o.node_name (record_outcome state config now o) states)
            outputs
    ]
  ]

module _ {S U J : Type 0} where
  unfoldable pub record_circuit_breaker_results : ℕ → Gate S J → List (TaskOutput U J) → Gate S J
  unfolding record_outputs
  record_circuit_breaker_results now g outputs =
      if is_empty g.circuit_breaker_configs then g else record g {
        circuit_breaker_states =
            record_outputs g.circuit_breaker_configs now g.circuit_breaker_states outputs;
      }
