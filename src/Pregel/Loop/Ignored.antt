-- ===== src/Pregel/Loop/Ignored.antt =====
-- crates/juncture-core/src/pregel/loop_.rs: what `tick` does not look at.
use juncture.Prelude.{ℕ, ◌≡◌, refl, Bool, true, false, Option, none, some, List, leb, is_empty}
use juncture.Prelude.Result.{Result, ok, err}
use juncture.Pregel.Types.{
  JunctureError, recursion_limit, LoopStatus, execution, interrupt_before, done, out_of_steps,
  cancelled, budget_exceeded,
}
use Prim.Native.String.{◌++◌ as concat}
use juncture.Pregel.BudgetTracker.{BudgetExceededReason}
use juncture.Pregel.Interrupts.{InterruptSignal}
use juncture.Pregel.Loop.{Env, PregelLoop, request_drain}
use juncture.Pregel.Loop.Tick.{
  finish_channels, budget_reason, interrupted_by, check_interrupt_before, tick_interrupt,
  tick_pending, tick,
}
use juncture.Pregel.Loop.{request_drain}

module _ {S U J F W : Type 0} (env : Env S U J F W) where
  -- `tick` from the values of its tests.
  tick_by :
      PregelLoop S U J F W
      → Bool
      → Bool
      → Option (BudgetExceededReason F)
      → Bool
      → Bool
      → Option (List (InterruptSignal J))
      → PregelLoop S U J F W × Result JunctureError Bool
  tick_by l at_limit stop reason idle drain due = elim at_limit [
    | true ↦ (
      finish_channels env (record l { status = out_of_steps }),
      err (recursion_limit l.step l.runnable_config.recursion_limit),
    )
    | false ↦ elim stop [
      | true ↦ (finish_channels env (record l { status = cancelled }), ok false)
      | false ↦ elim reason [
        | some why ↦ (
          finish_channels env (record l { status = budget_exceeded }),
          err (execution (concat "Budget exceeded: " (env.show_reason why))),
        )
        | none ↦ elim idle [
          | true ↦ elim drain [
            | true ↦ (record (finish_channels env l) { status = done }, ok false)
            | false ↦ (record (finish_channels env l) { status = done }, ok false)
          ]
          | false ↦ elim due [
            | none ↦ (l, ok true)
            | some signals ↦ (
              finish_channels env (interrupted_by env l signals (interrupt_before signals)),
              ok false,
            )
          ]
        ]
      ]
    ]
  ]

  tick_by-status :
      (l : PregelLoop S U J F W) (status : LoopStatus (InterruptSignal J)) (at_limit stop : Bool)
      → (reason : Option (BudgetExceededReason F)) (idle drain : Bool)
      → (due : Option (List (InterruptSignal J)))
      → (tick_by (record l { status = status }) at_limit stop reason idle drain due).1
        ≡ (tick_by l at_limit stop reason idle drain due).1
  unfolding tick_by
  tick_by-status l status true stop reason idle drain due = refl
  tick_by-status l status false true reason idle drain due = refl
  tick_by-status l status false false (some why) idle drain due = refl
  tick_by-status l status false false none true true due = refl
  tick_by-status l status false false none true false due = refl
  tick_by-status l status false false none false drain none = refl
  tick_by-status l status false false none false drain (some signals) = refl

  tick_by-request_drain :
      (l : PregelLoop S U J F W) (at_limit stop : Bool)
      → (reason : Option (BudgetExceededReason F)) (idle drain : Bool)
      → (due : Option (List (InterruptSignal J)))
      → tick_by (request_drain l) at_limit stop reason idle true due ≡ (
        request_drain (tick_by l at_limit stop reason idle drain due).0,
        (tick_by l at_limit stop reason idle drain due).1,
      )
  unfolding tick_by request_drain finish_channels interrupted_by
  tick_by-request_drain l true stop reason idle drain due = refl
  tick_by-request_drain l false true reason idle drain due = refl
  tick_by-request_drain l false false (some why) idle drain due = refl
  tick_by-request_drain l false false none true true due = refl
  tick_by-request_drain l false false none true false due = refl
  tick_by-request_drain l false false none false drain none = refl
  tick_by-request_drain l false false none false drain (some signals) = refl

  -- The answer of `tick` does not depend on the status: a loop that an interrupt or a drain has
  -- stopped is let on as a running one is, the rest of it being the same.
  pub tick-status :
      (elapsed : ℕ) (l : PregelLoop S U J F W) (status : LoopStatus (InterruptSignal J))
      → (tick env elapsed (record l { status = status })).1 ≡ (tick env elapsed l).1
  unfolding tick tick_pending tick_interrupt tick_by budget_reason check_interrupt_before
  tick-status elapsed l status =
      tick_by-status l status (leb l.runnable_config.recursion_limit l.step) l.is_cancelled
        (budget_reason env elapsed l) (is_empty l.pending_tasks) l.drain_requested
        (check_interrupt_before env l)

  -- A requested drain changes nothing: the tick gives the loop and the answer that it gives without
  -- the request, but for the request itself.
  pub tick-request_drain :
      (elapsed : ℕ) (l : PregelLoop S U J F W)
      → tick env elapsed (request_drain l)
        ≡ (request_drain (tick env elapsed l).0, (tick env elapsed l).1)
  unfolding tick tick_pending tick_interrupt tick_by budget_reason check_interrupt_before
      request_drain
  tick-request_drain elapsed l =
      tick_by-request_drain l (leb l.runnable_config.recursion_limit l.step) l.is_cancelled
        (budget_reason env elapsed l) (is_empty l.pending_tasks) l.drain_requested
        (check_interrupt_before env l)
