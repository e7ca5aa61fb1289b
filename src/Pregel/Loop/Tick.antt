-- ===== src/Pregel/Loop/Tick.antt =====
-- crates/juncture-core/src/pregel/loop_.rs: `tick`, which decides before each superstep whether the
-- run goes on, and what ends it.
use juncture.Prelude.{ℕ, Bool, true, false, Option, none, some, List, [], leb, is_empty}
use Prim.Native.String.{◌++◌ as concat}
use juncture.Prelude.Result.{Result, ok, err}
use juncture.Pregel.Types.{
  JunctureError, execution, recursion_limit, LoopStatus, done, out_of_steps, budget_exceeded,
  cancelled, interrupt_before,
}
use juncture.Pregel.Snapshots.{finish_all_channels}
use juncture.Pregel.BudgetTracker.{BudgetExceededReason, check}
use juncture.Pregel.Interrupts.{InterruptSignal, should_interrupt}
use juncture.Pregel.Loop.{Env, PregelLoop, channel_versions}

module _ {S U J F W : Type 0} (env : Env S U J F W) where
  unfoldable pub finish_channels : PregelLoop S U J F W → PregelLoop S U J F W
  finish_channels l =
      let finished = finish_all_channels env.ops (l.state, l.channels_finished) in
      record l { state = finished.0; channels_finished = finished.1 }

  unfoldable pub budget_reason : ℕ → PregelLoop S U J F W → Option (BudgetExceededReason F)
  budget_reason elapsed l = elim l.budget_tracker [
    | none ↦ none
    | some tracker ↦ check env.from_micros env.is_above tracker elapsed
  ]

  -- The loop stops with the signals as its pending interrupts.
  unfoldable pub interrupted_by :
      PregelLoop S U J F W
      → List (InterruptSignal J)
      → LoopStatus (InterruptSignal J)
      → PregelLoop S U J F W
  interrupted_by l signals status = record l {
    interrupt_versions_seen = channel_versions env.show l.field_versions;
    pending_interrupts = signals;
    status = status;
  }

  -- The test for an interrupt before the next superstep.
  unfoldable pub check_interrupt_before : PregelLoop S U J F W → Option (List (InterruptSignal J))
  check_interrupt_before l = elim l.runnable_config.interrupt_before [
    | none ↦ none
    | some nodes ↦
        should_interrupt env.interrupt_id env.payload l.pending_tasks nodes []
          (channel_versions env.show l.field_versions) l.interrupt_versions_seen
  ]

  -- The end of `tick`, with tasks pending.
  unfoldable pub tick_interrupt :
      PregelLoop S U J F W → PregelLoop S U J F W × Result JunctureError Bool
  tick_interrupt l = elim (check_interrupt_before l) [
    | none ↦ (l, ok true)
    | some signals ↦
        (finish_channels (interrupted_by l signals (interrupt_before signals)), ok false)
  ]

  unfoldable pub tick_pending :
      PregelLoop S U J F W → PregelLoop S U J F W × Result JunctureError Bool
  tick_pending l = elim (is_empty l.pending_tasks) [
    | true ↦ elim l.drain_requested [
      | true ↦ (record (finish_channels l) { status = done }, ok false)
      | false ↦ (record (finish_channels l) { status = done }, ok false)
    ]
    | false ↦ tick_interrupt l
  ]

  -- `elapsed` is the time since the budget's start.
  unfoldable pub tick : ℕ → PregelLoop S U J F W → PregelLoop S U J F W × Result JunctureError Bool
  tick elapsed l = elim (leb l.runnable_config.recursion_limit l.step) [
    | true ↦ (
      finish_channels (record l { status = out_of_steps }),
      err (recursion_limit l.step l.runnable_config.recursion_limit),
    )
    | false ↦ elim l.is_cancelled [
      | true ↦ (finish_channels (record l { status = cancelled }), ok false)
      | false ↦ elim (budget_reason elapsed l) [
        | some reason ↦ (
          finish_channels (record l { status = budget_exceeded }),
          err (execution (concat "Budget exceeded: " (env.show_reason reason))),
        )
        | none ↦ tick_pending l
      ]
    ]
  ]
