-- ===== src/Pregel/Loop/Merging.antt =====
-- crates/juncture-core/src/pregel/loop_.rs: the first half of `after_tick`, which merges the writes
-- of a superstep and schedules the next one. Each part gives the loop as it leaves it beside its
-- answer, so that `?` keeps the changes made before it.
use juncture.Prelude.{
  ℕ, String, Bool, true, false, not, none, some, List, [], ◌∷◌, ◌++◌, map, ltb, if◌then◌else◌,
  length, is_empty, filter, contains,
}
use juncture.Prelude.Result.{Result, ok, err}
use Prim.Native.String.{◌++◌ as concat}
use juncture.State.Fields.{FieldsChanged, is_empty_mask}
use juncture.Pregel.Types.{JunctureError, execution, PendingTask, TaskOutput}
use juncture.Pregel.Versions.{VersionsSeen, mark_consumed}
use juncture.Pregel.Writes.{apply_writes}
use juncture.Pregel.Schedule.{compute_next_tasks}
use juncture.Pregel.Recovery.{
  is_some, schedule_fallback_tasks, schedule_error_handlers_filtered,
  schedule_error_handlers_from_writes,
}
use juncture.Pregel.Snapshots.{update_delta_counters, consume_triggered}
use juncture.Pregel.Loop.{Env, PregelLoop}

-- The ids that `Uuid::new_v4` and `generate_checkpoint_id` return in one call of `after_tick`.
pub record Ids : Type 0 where
  pub next_id : ℕ → String
  pub fallback_id : ℕ → String
  pub handler_id : ℕ → String
  pub persisted_id : ℕ → String
  pub superstep_checkpoint : String
  pub interrupt_checkpoint : String
  pub exit_checkpoint : String

-- The tasks that ran: they were not blocked by a circuit breaker.
abbrev pub executed : {U J : Type 0} → List (TaskOutput U J) → List (TaskOutput U J)
executed outputs = filter (λ o. not o.circuit_blocked) outputs

unfoldable pub mark_outputs :
    {U J : Type 0} → List (TaskOutput U J) → List ℕ → VersionsSeen → VersionsSeen
mark_outputs [] before seen = seen
mark_outputs (o ∷ outputs) before seen =
    mark_outputs outputs before
      (if o.circuit_blocked then seen else mark_consumed seen o.node_name before)

-- The names of the nodes that failed.
unfoldable pub failed_names : {U J : Type 0} → List (TaskOutput U J) → List String
failed_names [] = []
failed_names (o ∷ outputs) =
    let rest = failed_names outputs in if is_some o.error then o.node_name ∷ rest else rest

abbrev pub node_names : {S J : Type 0} → List (PendingTask S J) → List String
node_names tasks = map (λ task. task.node_name) tasks

module _ {S U J F W : Type 0} where
  -- `?` on a part that may change the loop.
  abbrev pub then_step :
      {A B : Type 0}
      → PregelLoop S U J F W × Result JunctureError A
      → (PregelLoop S U J F W → A → PregelLoop S U J F W × Result JunctureError B)
      → PregelLoop S U J F W × Result JunctureError B
  then_step (l, ok a) next = next l a
  then_step (l, err e) next = (l, err e)

  -- Whether a snapshot is taken for a rollback.
  unfoldable pub needs_snapshot : PregelLoop S U J F W → Bool
  needs_snapshot l = elim l.runnable_config.resource_limits [
    | none ↦ false
    | some limits ↦ is_some limits.max_state_size_bytes
  ]

module _ {S U J F W : Type 0} (env : Env S U J F W) where
  unfoldable pub size_error : ℕ → ℕ → JunctureError
  size_error actual max_bytes = execution (
      concat "State size limit exceeded: " (
        concat (env.show actual) (concat " bytes > " (concat (env.show max_bytes) " bytes limit"))))

  unfoldable pub check_state_size_limit :
      PregelLoop S U J F W → FieldsChanged → Result JunctureError (Unit {0})
  check_state_size_limit l changed = elim l.runnable_config.resource_limits [
    | none ↦ ok tt
    | some limits ↦ elim limits.max_state_size_bytes [
      | none ↦ ok tt
      | some max_bytes ↦ elim (is_empty_mask changed) [
        | true ↦ ok tt
        | false ↦ elim (env.to_vec_len l.state) [
          | err e ↦ err (execution (concat "State serialization failed for size check: " e))
          | ok actual ↦ if ltb max_bytes actual then err (size_error actual max_bytes) else ok tt
        ]
      ]
    ]
  ]

  -- The writes of the superstep, with the rollback where the state has grown too large.
  unfoldable pub merge_writes :
      PregelLoop S U J F W
      → List (TaskOutput U J)
      → PregelLoop S U J F W × Result JunctureError FieldsChanged
  merge_writes l outputs =
      let merged =
        apply_writes env.ops l.state (executed outputs) l.field_versions l.node_registration in
      let written = record l { state = merged.0; field_versions = merged.1 } in
      elim merged.2 [
        | err e ↦ (written, err e)
        | ok total ↦ elim (check_state_size_limit written total) [
          | ok _ ↦ (written, ok total)
          | err e ↦ (
            if needs_snapshot l
                then record written {
                  state = l.state;
                  field_versions = l.field_versions;
                  circuit_breaker_states = l.circuit_breaker_states;
                }
                else written,
            err e,
          )
        ]
      ]

  -- From the delta counters to the reset of the ephemeral fields. `before` holds the versions at
  -- the start of `after_tick`. The debug events of the changed fields are left out, and with them
  -- the panic of their lookup on a changed field out of range.
  unfoldable pub settle :
      PregelLoop S U J F W → List (TaskOutput U J) → List ℕ → FieldsChanged → PregelLoop S U J F W
  settle l outputs before total = record l {
    delta_counters =
        update_delta_counters (λ idx. concat "field_" (env.show idx)) env.field_names_len
          (length l.field_versions.versions) total l.delta_counters;
    state =
        env.ops.reset_ephemeral
          (consume_triggered env.ops l.previous_superstep_changed_fields l.state);
    versions_seen = mark_outputs outputs before l.versions_seen;
  }

  -- The tasks from the markers that outlived a crash.
  unfoldable pub persisted_tasks :
      Ids → PregelLoop S U J F W → List (TaskOutput U J) → List (PendingTask S J)
  persisted_tasks ids l outputs = elim (is_empty l.error_handler_map) [
    | true ↦ []
    | false ↦ elim l.checkpointer [
      | none ↦ []
      | some saver ↦ elim (env.get_tuple saver l.runnable_config.checkpoint_id) [
        | none ↦ []
        | some pending_writes ↦
            schedule_error_handlers_from_writes ids.persisted_id l.nodes env.as_str pending_writes
              l.error_handler_map (failed_names outputs)
      ]
    ]
  ]

  -- The pending tasks of the next superstep: the edges' tasks, then fallbacks for nodes that have
  -- no task yet, then error handlers, then the persisted recovery.
  unfoldable pub schedule :
      Ids
      → PregelLoop S U J F W
      → List (TaskOutput U J)
      → PregelLoop S U J F W × Result JunctureError (Unit {0})
  schedule ids l outputs =
      elim (compute_next_tasks ids.next_id l.nodes l.trigger_table l.trigger_to_nodes l.state
        (executed outputs)) [
          | err e ↦ (l, err e)
          | ok tasks ↦
              let fallback =
                schedule_fallback_tasks ids.fallback_id l.nodes (executed outputs) l.fallback_map in
              let fallbacks =
                filter (λ task. not (contains task.node_name (node_names tasks))) fallback.0 in
              let handlers =
                schedule_error_handlers_filtered ids.handler_id l.nodes (executed outputs)
                  l.error_handler_map fallback.1 in
              (
                record l {
                  pending_tasks =
                      tasks ++ fallbacks ++ handlers ++ persisted_tasks ids l (executed outputs);
                },
                ok tt,
              )
        ]
