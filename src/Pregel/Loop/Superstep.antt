-- ===== src/Pregel/Loop/Superstep.antt =====
-- crates/juncture-core/src/pregel/loop_.rs: `execute_superstep`. The task runner is `run`, which is
-- given the pending tasks, the state, the pending interrupts and the scratchpad, and answers with
-- the outputs and the signals that the nodes sent. The state that is lent to the tasks is only
-- read, and is put back whatever the runner answers.
use juncture.Prelude.{ℕ, String, Bool, not, none, some, List, [], ◌∷◌, ◌++◌, is_empty}
use juncture.Prelude.Result.{Result, ok, err}
use Prim.Native.String.{◌++◌ as concat}
use juncture.Pregel.Types.{JunctureError, execution, PendingTask, TaskOutput, Command}
use juncture.Pregel.Gate.{Gate, check_circuit_breakers, record_circuit_breaker_results}
use juncture.Pregel.Interrupts.{InterruptSignal, Scratchpad, mark_interrupt_processed}
use juncture.Pregel.Loop.{Env, PregelLoop}

-- `BubbleUp`; a subgraph's interrupt carries its signals, and a parent command its command.
pub data BubbleUp (U J : Type 0) : Type 0 where
  interrupt : List (InterruptSignal J) → BubbleUp U J
  drained_by : String → BubbleUp U J
  parent_command : Command U J → BubbleUp U J

pub record SuperstepResult (U J : Type 0) : Type 0 where
  pub task_outputs : List (TaskOutput U J)
  pub bubble_ups : List (BubbleUp U J)

abbrev pub empty_result : {U J : Type 0} → SuperstepResult U J
empty_result = record { task_outputs = []; bubble_ups = [] }

unfoldable pub has_bubble_ups : {U J : Type 0} → SuperstepResult U J → Bool
has_bubble_ups result = not (is_empty result.bubble_ups)

abbrev pub Runner : (S U J : Type 0) → Type 0
Runner S U J =
    List (PendingTask S J)
    → S
    → List (InterruptSignal J)
    → Scratchpad J
    → Result JunctureError (SuperstepResult U J × List (InterruptSignal J))

module _ {S J : Type 0} (from_value : J → Result String S) where
  unfoldable pub resolve_task : PendingTask S J → Result JunctureError (PendingTask S J)
  resolve_task task = elim task.state_override [
    | some state ↦ ok task
    | none ↦ elim task.state_json [
      | none ↦ ok task
      | some json ↦ elim (from_value json) [
        | ok state ↦ ok (record task { state_override = some state })
        | err e ↦ err (
            execution (
              concat "failed to deserialize state_json for task '"
                (concat task.node_name (concat "': " e))))
      ]
    ]
  ]

  -- An error leaves the tasks before it resolved, and the others as they are.
  unfoldable pub resolve_state_json :
      List (PendingTask S J) → List (PendingTask S J) × Result JunctureError (Unit {0})
  resolve_state_json [] = ([], ok tt)
  resolve_state_json (task ∷ tasks) = elim (resolve_task task) [
    | err e ↦ (task ∷ tasks, err e)
    | ok resolved ↦ let rest = resolve_state_json tasks in (resolved ∷ rest.0, rest.1)
  ]

unfoldable pub mark_processed :
    {J : Type 0} → List (InterruptSignal J) → Scratchpad J → Scratchpad J
mark_processed [] pad = pad
mark_processed (signal ∷ signals) pad =
    mark_processed signals
      (elim signal.id [ none ↦ pad | some id ↦ mark_interrupt_processed pad id ])

module _ {S U J F W : Type 0} where
  abbrev pub gate_of : PregelLoop S U J F W → Gate S J
  gate_of l = record {
    circuit_breaker_configs = l.circuit_breaker_configs;
    circuit_breaker_states = l.circuit_breaker_states;
    pending_tasks = l.pending_tasks;
  }

  abbrev pub with_gate : PregelLoop S U J F W → Gate S J → PregelLoop S U J F W
  with_gate l g = record l {
    circuit_breaker_states = g.circuit_breaker_states;
    pending_tasks = g.pending_tasks;
  }

module _ {S U J F W : Type 0} (env : Env S U J F W) (run : Runner S U J) where
  -- The part after `check_circuit_breakers`, with the outputs of the blocked tasks. The clock reads
  -- `ended` when the runner has answered.
  unfoldable pub run_tasks :
      ℕ
      → PregelLoop S U J F W
      → List (TaskOutput U J)
      → PregelLoop S U J F W × Result JunctureError (SuperstepResult U J)
  run_tasks ended l blocked = elim (run l.pending_tasks l.state l.pending_interrupts l.scratchpad) [
    | err e ↦ (l, err e)
    | ok (result, signals) ↦
        let marked = record l { scratchpad = mark_processed l.pending_interrupts l.scratchpad } in
        let recorded =
          with_gate marked
            (record_circuit_breaker_results ended (gate_of marked) result.task_outputs) in
        (
          record recorded { interrupt_rx = some signals },
          ok (record result { task_outputs = result.task_outputs ++ blocked }),
        )
  ]

  unfoldable pub execute_superstep :
      ℕ
      → ℕ
      → PregelLoop S U J F W
      → PregelLoop S U J F W × Result JunctureError (SuperstepResult U J)
  execute_superstep now ended l =
      let resolved = resolve_state_json env.from_value l.pending_tasks in
      let l1 = record l { pending_tasks = resolved.0 } in
      elim resolved.1 [
        | err e ↦ (l1, err e)
        | ok _ ↦
            let checked = check_circuit_breakers env.show now (gate_of l1) in
            run_tasks ended (with_gate l1 checked.0) checked.1
      ]
