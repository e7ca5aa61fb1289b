-- ===== src/Pregel/Loop/AfterTick.antt =====
-- crates/juncture-core/src/pregel/loop_.rs: `after_tick`, and how it stops the loop. The step is
-- bounded by the recursion limit, a 64-bit number.
use juncture.Prelude.{
  ◌+◌, Bool, true, false, ◌&&◌, Option, none, some, List, [], ◌∷◌, if◌then◌else◌, is_empty,
  or_empty,
}
use juncture.Prelude.Result.{Result, ok, err}
use juncture.Pregel.Types.{JunctureError, Command, interrupt_after, drained, is_interrupted}
use juncture.Pregel.Versions.{bump_all}
use juncture.Pregel.BudgetTracker.{report_step}
use juncture.Pregel.Interrupts.{InterruptSignal, should_interrupt}
use juncture.Pregel.Loop.{Env, PregelLoop, channel_versions, exit}
use juncture.Pregel.Loop.Tick.{finish_channels, interrupted_by}
use juncture.Pregel.Loop.Saving.{
  effective_durability, save_interrupt_checkpoint, save_superstep_checkpoint, save_exit_checkpoint,
  interrupt_node_name,
}
use juncture.Pregel.Loop.Superstep.{
  BubbleUp, interrupt, drained_by, parent_command, SuperstepResult, has_bubble_ups,
}
use juncture.Pregel.Loop.Merging.{Ids, then_step, merge_writes, settle, schedule}

module _ {S U J F W : Type 0} (env : Env S U J F W) where
  -- The end of a stop: the interrupt's checkpoint, then `finish_all_channels`.
  unfoldable pub stop_interrupted :
      Ids → PregelLoop S U J F W → PregelLoop S U J F W × Result JunctureError (Unit {0})
  stop_interrupted ids l =
      then_step
        (save_interrupt_checkpoint env ids.interrupt_checkpoint l (interrupt_node_name env l))
        (λ saved _. (finish_channels env saved, ok tt))

  unfoldable pub handle_bubble_up_parent_command :
      Command U J → PregelLoop S U J F W → PregelLoop S U J F W
  handle_bubble_up_parent_command command l = elim command.update [
    | none ↦ l
    | some update ↦
        let applied = env.ops.try_apply l.state update in
        elim applied.1 [
          | ok changed ↦ record l {
            state = applied.0;
            field_versions = bump_all l.field_versions changed;
          }
          | err message ↦ record l { state = applied.0 }
        ]
  ]

  -- The loop, and whether it is to stop.
  unfoldable pub handle_bubble_ups :
      List (BubbleUp U J) → PregelLoop S U J F W → Bool → PregelLoop S U J F W × Bool
  handle_bubble_ups [] l should_stop = (l, should_stop)
  handle_bubble_ups (interrupt signals ∷ rest) l should_stop =
      handle_bubble_ups rest
        (record l { pending_interrupts = signals; status = interrupt_after signals }) true
  handle_bubble_ups (drained_by reason ∷ rest) l should_stop =
      handle_bubble_ups rest (record l { status = drained }) true
  handle_bubble_ups (parent_command command ∷ rest) l should_stop =
      handle_bubble_ups rest (handle_bubble_up_parent_command command l) should_stop

  -- The end of a superstep after which the loop does not stop.
  unfoldable pub complete_step : Ids → PregelLoop S U J F W → PregelLoop S U J F W
  complete_step ids l =
      let finished = finish_channels env l in
      let saved : PregelLoop S U J F W = elim (effective_durability env finished) [
        | exit ↦ save_exit_checkpoint env ids.exit_checkpoint finished
        | _ ↦ finished
      ] in
      let ended = if is_empty l.pending_tasks then saved else l in
      record ended {
        step = l.step + 1;
        budget_tracker = elim ended.budget_tracker [
          | none ↦ none
          | some tracker ↦ some (report_step tracker)
        ];
      }

  unfoldable pub check_interrupt_after : PregelLoop S U J F W → Option (List (InterruptSignal J))
  check_interrupt_after l = elim l.runnable_config.interrupt_after [
    | none ↦ none
    | some nodes ↦
        should_interrupt env.interrupt_id env.payload l.pending_tasks [] nodes
          (channel_versions env.show l.field_versions) l.interrupt_versions_seen
  ]

  unfoldable pub end_superstep :
      Ids → PregelLoop S U J F W → PregelLoop S U J F W × Result JunctureError (Unit {0})
  end_superstep ids l = elim (check_interrupt_after l) [
    | some signals ↦ stop_interrupted ids (interrupted_by env l signals (interrupt_after signals))
    | none ↦ (complete_step ids l, ok tt)
  ]

  unfoldable pub bubble_superstep :
      Ids
      → SuperstepResult U J
      → PregelLoop S U J F W
      → PregelLoop S U J F W × Result JunctureError (Unit {0})
  bubble_superstep ids result l =
      let handled = handle_bubble_ups result.bubble_ups l false in
      elim (has_bubble_ups result && handled.1) [
        | true ↦ elim (is_interrupted handled.0.status) [
          | true ↦ stop_interrupted ids handled.0
          | false ↦ (finish_channels env handled.0, ok tt)
        ]
        | false ↦ end_superstep ids handled.0
      ]

  -- What follows the checkpoint of the superstep; the signals are drained from the channel.
  unfoldable pub conclude :
      Ids
      → SuperstepResult U J
      → PregelLoop S U J F W
      → PregelLoop S U J F W × Result JunctureError (Unit {0})
  conclude ids result l =
      let signals = or_empty l.interrupt_rx in
      let drained_l = record l { interrupt_rx = none } in
      elim signals [
        | [] ↦ bubble_superstep ids result drained_l
        | signal ∷ rest ↦ stop_interrupted ids (record drained_l {
          pending_interrupts = signal ∷ rest;
          status = interrupt_after (signal ∷ rest);
        })
      ]

  unfoldable pub after_tick :
      Ids
      → PregelLoop S U J F W
      → SuperstepResult U J
      → PregelLoop S U J F W × Result JunctureError (Unit {0})
  after_tick ids l result = then_step (merge_writes env l result.task_outputs) (λ merged total.
      then_step
        (schedule env ids (settle env merged result.task_outputs l.field_versions.versions total)
          result.task_outputs)
        (λ scheduled _.
          then_step
            (save_superstep_checkpoint env ids.superstep_checkpoint
              (record scheduled { previous_superstep_changed_fields = total }))
            (λ saved _. conclude ids result saved)))
