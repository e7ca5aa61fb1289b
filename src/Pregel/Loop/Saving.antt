-- ===== src/Pregel/Loop/Saving.antt =====
-- crates/juncture-core/src/pregel/loop_.rs: the checkpoints that the loop writes. `checkpoint_id`
-- is the id that `generate_checkpoint_id` returns. A write that is spawned in `Durability::Async`
-- is taken to run at once; nothing reads its answer.
use juncture.Prelude.{
  ℕ, ◌-◌, ◌^◌, min, String, Bool, true, false, not, Option, none, some, List, [], ◌∷◌, map,
  if◌then◌else◌, Map,
}
use juncture.Prelude.Result.{Result, ok, err}
use juncture.Pregel.Types.{JunctureError, PendingTask, is_interrupted}
use juncture.Pregel.Types as Types
use juncture.Pregel.Versions.{get_seen}
use juncture.Pregel.Snapshots.{DeltaCounters, should_take_full_snapshot, reset_delta_counters}
use juncture.Pregel.Interrupts.{InterruptSignal}
use Prim.Native.String.{◌++◌ as concat}
use juncture.Pregel.Loop.{
  Durability, async, sync, exit, Checkpoint, CheckpointMetadata, CheckpointSource, from_loop,
  from_interrupt, CheckpointPendingTask, Env, PregelLoop, channel_versions, named_from,
}

-- `unwrap_or(i64::MAX)`
abbrev pub to_i64 : ℕ → ℕ
to_i64 n = min n (2 ^ 63 - 1)

module _ {S J : Type 0} where
  abbrev pub saved_tasks : List (PendingTask S J) → List CheckpointPendingTask
  saved_tasks tasks = map (λ task. record { id = task.id; node = task.node_name }) tasks

module _ {S U J F W : Type 0} (env : Env S U J F W) where
  unfoldable pub effective_durability : PregelLoop S U J F W → Durability
  effective_durability l = elim l.runnable_config.durability [ none ↦ sync | some d ↦ d ]

  -- The map `versions_seen` of a checkpoint.
  unfoldable pub saved_seen : PregelLoop S U J F W → Map (Map ℕ)
  saved_seen l = map (λ node. (node, named_from env.show 0 (get_seen l.versions_seen node))) l.nodes

  unfoldable pub build_checkpoint :
      PregelLoop S U J F W
      → String
      → J
      → List CheckpointPendingTask
      → List (InterruptSignal J)
      → Map DeltaCounters
      → Checkpoint J
  build_checkpoint l checkpoint_id channel_values tasks interrupts counters = record {
    id = checkpoint_id;
    channel_values = channel_values;
    channel_versions = channel_versions env.show l.field_versions;
    versions_seen = saved_seen l;
    pending_tasks = tasks;
    pending_interrupts = interrupts;
    v = 1;
    new_versions = channel_versions env.show l.field_versions;
    counters_since_delta_snapshot = counters;
  }

  abbrev pub metadata_of : PregelLoop S U J F W → CheckpointSource → CheckpointMetadata
  metadata_of l source = record { source = source; step = to_i64 l.step; run_id = l.run_id }

  -- `self.reset_delta_counters()`
  abbrev pub forget_counters : PregelLoop S U J F W → PregelLoop S U J F W
  forget_counters l = record l { delta_counters = reset_delta_counters l.delta_counters }

  -- The loop after `Ok(updated_config)`.
  abbrev pub adopt : PregelLoop S U J F W → Option String → PregelLoop S U J F W
  adopt l id =
      forget_counters
        (record l { runnable_config = record l.runnable_config { checkpoint_id = id } })

  -- The match on the durability with which the two savers end.
  unfoldable pub write_checkpoint :
      PregelLoop S U J F W
      → W
      → Checkpoint J
      → CheckpointMetadata
      → PregelLoop S U J F W × Result JunctureError (Unit {0})
  write_checkpoint l saver checkpoint metadata =
      let answer = env.put saver l.runnable_config.checkpoint_id checkpoint metadata in
      let written = record l { checkpointer = some answer.0 } in
      let awaited : PregelLoop S U J F W × Result JunctureError (Unit {0}) = elim answer.1 [
        | ok id ↦ (adopt written id, ok tt)
        | err message ↦ (written, err (Types.checkpoint_failure message))
      ] in
      elim (effective_durability l) [
        | async ↦ (forget_counters written, ok tt)
        | sync ↦ awaited
        | exit ↦ awaited
      ]

  unfoldable pub save_interrupt_checkpoint :
      String
      → PregelLoop S U J F W
      → String
      → PregelLoop S U J F W × Result JunctureError (Unit {0})
  save_interrupt_checkpoint checkpoint_id l node = elim l.checkpointer [
    | none ↦ (l, ok tt)
    | some saver ↦ elim (env.to_value l.state) [
      | err message ↦ (l, ok tt)
      | ok channel_values ↦
          write_checkpoint l saver
            (build_checkpoint l checkpoint_id channel_values [] l.pending_interrupts
              l.delta_counters)
            (metadata_of l (from_interrupt node))
    ]
  ]

  unfoldable pub needs_full_snapshot : PregelLoop S U J F W → Bool
  needs_full_snapshot l =
      should_take_full_snapshot (λ idx. concat "field_" (env.show idx)) env.delta_channel_specs
        l.delta_counters

  unfoldable pub save_superstep_checkpoint :
      String → PregelLoop S U J F W → PregelLoop S U J F W × Result JunctureError (Unit {0})
  save_superstep_checkpoint checkpoint_id l = elim l.checkpointer [
    | none ↦ (l, ok tt)
    | some saver ↦ elim (effective_durability l) [
      | exit ↦ (l, ok tt)
      | _ ↦ elim (needs_full_snapshot l) [
        | false ↦ (l, ok tt)
        | true ↦ elim (env.to_value l.state) [
          | err message ↦ (l, ok tt)
          | ok channel_values ↦
              write_checkpoint l saver
                (build_checkpoint l checkpoint_id channel_values (saved_tasks l.pending_tasks) []
                  l.delta_counters)
                (metadata_of l from_loop)
        ]
      ]
    ]
  ]

  unfoldable pub interrupt_node_name : PregelLoop S U J F W → String
  interrupt_node_name l = elim l.pending_interrupts [
    | [] ↦ "unknown"
    | signal ∷ signals ↦ elim (env.payload_node signal.payload) [
      | none ↦ "unknown"
      | some name ↦ name
    ]
  ]

  unfoldable pub save_pending_interrupt_checkpoint :
      String → PregelLoop S U J F W → PregelLoop S U J F W × Result JunctureError (Unit {0})
  save_pending_interrupt_checkpoint checkpoint_id l =
      if not (is_interrupted l.status)
      then (l, ok tt)
      else save_interrupt_checkpoint checkpoint_id l (interrupt_node_name l)

  -- Its counters are not saved, and its errors are only logged.
  unfoldable pub save_exit_checkpoint : String → PregelLoop S U J F W → PregelLoop S U J F W
  save_exit_checkpoint checkpoint_id l = elim l.checkpointer [
    | none ↦ l
    | some saver ↦ elim (env.to_value l.state) [
      | err message ↦ l
      | ok channel_values ↦
          let answer =
            env.put saver l.runnable_config.checkpoint_id
              (build_checkpoint l checkpoint_id channel_values (saved_tasks l.pending_tasks) [] [])
              (metadata_of l from_loop) in
          let written = record l { checkpointer = some answer.0 } in
          elim answer.1 [
            | ok id ↦ record written {
              runnable_config = record written.runnable_config { checkpoint_id = id };
            }
            | err message ↦ written
          ]
    ]
  ]
