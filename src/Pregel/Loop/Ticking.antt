-- ===== src/Pregel/Loop/Ticking.antt =====
-- crates/juncture-core/src/pregel/loop_.rs: when `tick` lets the run go on, and what it leaves
-- where it does not.
use juncture.Prelude.{
  ℕ, ◌<◌, ◌≡◌, refl, ◌∙◌, ◌⊎◌, inl, inr, Bool, true, false, none, arith, leb, Bool-cases,
  Option-cases, is_empty,
}
use mathlib.Core.Path.{subst⁻¹}
use juncture.Prelude.Result.{Result, ok, err}
use juncture.Pregel.Types.{
  JunctureError, is_running, interrupt_before, out_of_steps, cancelled, budget_exceeded,
}
use juncture.Pregel.Snapshots.{finish_all_channels}
use juncture.Pregel.Loop.{Env, PregelLoop}
use juncture.Pregel.Loop.Tick.{
  finish_channels, budget_reason, interrupted_by, check_interrupt_before, tick_interrupt,
  tick_pending, tick,
}

-- The test of the `while`, which an error leaves.
unfoldable pub goes_on : Result JunctureError Bool → Bool
goes_on (ok b) = b
goes_on (err e) = false

-- A loop that has stopped: its channels are finished, and its status is not `Running`.
pub record Stopped {S U J F W : Type 0} (l : PregelLoop S U J F W) : Type 0 where
  pub finished : l.channels_finished ≡ true
  pub ended : is_running l.status ≡ false

module _ {S U J F W : Type 0} (env : Env S U J F W) where
  finish_channels-finished :
      (l : PregelLoop S U J F W) → (finish_channels env l).channels_finished ≡ true
  unfolding finish_channels finish_all_channels
  finish_channels-finished l = elim (Bool-cases l.channels_finished) [
    | inl e ↦ rw e refl
    | inr e ↦ rw e refl
  ]

  -- What must hold for the run to go on.
  pub record MayRun (elapsed : ℕ) (l : PregelLoop S U J F W) : Type 0 where
    pub within_limit : l.step < l.runnable_config.recursion_limit
    pub not_cancelled : l.is_cancelled ≡ false
    pub within_budget : budget_reason env elapsed l ≡ none
    pub has_tasks : is_empty l.pending_tasks ≡ false
    pub not_interrupted : check_interrupt_before env l ≡ none

  -- Either the tick lets the run go on, which changes nothing, or it has stopped the loop and its
  -- answer is not `Ok(true)`.
  abbrev pub Decided :
      ℕ → PregelLoop S U J F W → PregelLoop S U J F W × Result JunctureError Bool → Type 0
  Decided elapsed l t =
      (MayRun elapsed l × (t ≡ (l, ok true))) ⊎ (Stopped t.0 × (goes_on t.1 ≡ false))

  pub finish_channels-Stopped :
      (l : PregelLoop S U J F W) → is_running l.status ≡ false → Stopped (finish_channels env l)
  unfolding finish_channels
  finish_channels-Stopped l e = record { finished = finish_channels-finished l; ended = e }

  tick_interrupt-Decided :
      (elapsed : ℕ) (l : PregelLoop S U J F W)
      → l.step < l.runnable_config.recursion_limit
      → l.is_cancelled ≡ false
      → budget_reason env elapsed l ≡ none
      → is_empty l.pending_tasks ≡ false
      → Decided elapsed l (tick_interrupt env l)
  unfolding is_running interrupted_by tick_interrupt goes_on
  tick_interrupt-Decided elapsed l s c b p = elim (Option-cases (check_interrupt_before env l)) [
    | inl e ↦ inl (
      record {
        within_limit = s;
        not_cancelled = c;
        within_budget = b;
        has_tasks = p;
        not_interrupted = e;
      },
      rw (tick_interrupt, e) refl,
    )
    | inr (signals, e) ↦ inr (
      rw (tick_interrupt, e)
          (finish_channels-Stopped (interrupted_by env l signals (interrupt_before signals)) refl),
      rw (tick_interrupt, e) refl,
    )
  ]

  tick_pending-Decided :
      (elapsed : ℕ) (l : PregelLoop S U J F W)
      → l.step < l.runnable_config.recursion_limit
      → l.is_cancelled ≡ false
      → budget_reason env elapsed l ≡ none
      → Decided elapsed l (tick_pending env l)
  unfolding is_running tick_pending goes_on finish_channels
  tick_pending-Decided elapsed l s c b = elim (Bool-cases (is_empty l.pending_tasks)) [
    | inr p ↦ rw (tick_pending, p) (tick_interrupt-Decided elapsed l s c b p)
    | inl p ↦ elim (Bool-cases l.drain_requested) [
      | inl d ↦ inr (
        rw (tick_pending, p, d) (record { finished = finish_channels-finished l; ended = refl }),
        rw (tick_pending, p, d) refl,
      )
      | inr d ↦ inr (
        rw (tick_pending, p, d) (record { finished = finish_channels-finished l; ended = refl }),
        rw (tick_pending, p, d) refl,
      )
    ]
  ]

  tick-tick_pending :
      (elapsed : ℕ) (l : PregelLoop S U J F W)
      → leb l.runnable_config.recursion_limit l.step ≡ false
      → l.is_cancelled ≡ false
      → budget_reason env elapsed l ≡ none
      → tick env elapsed l ≡ tick_pending env l
  unfolding tick
  tick-tick_pending elapsed l s c b = simp (tick, s, c, b) refl

  -- `tick` either lets the run go on and changes nothing, and then the step is below the recursion
  -- limit, the run is not cancelled, the budget holds, tasks are pending and no interrupt is due
  -- before them; or it leaves the channels finished and a status that is not `Running`, and its
  -- answer is `Ok(false)` or an error.
  pub tick-Decided :
      (elapsed : ℕ) (l : PregelLoop S U J F W) → Decided elapsed l (tick env elapsed l)
  unfolding tick goes_on is_running
  tick-Decided elapsed l = elim (Bool-cases (leb l.runnable_config.recursion_limit l.step)) [
    | inl s ↦ inr (
      rw (tick, s) (finish_channels-Stopped (record l { status = out_of_steps }) refl),
      rw (tick, s) refl,
    )
    | inr s ↦ elim (Bool-cases l.is_cancelled) [
      | inl c ↦ inr (
        rw (tick, s, c) (finish_channels-Stopped (record l { status = cancelled }) refl),
        rw (tick, s, c) refl,
      )
      | inr c ↦ elim (Option-cases (budget_reason env elapsed l)) [
        | inr (reason, b) ↦ inr (
          rw (tick, s, c, b) (finish_channels-Stopped (record l { status = budget_exceeded }) refl),
          rw (tick, s, c, b) refl,
        )
        | inl b ↦
            subst⁻¹ (Decided elapsed l) (tick-tick_pending elapsed l s c b)
              (tick_pending-Decided elapsed l (ground arith) c b)
      ]
    ]
  ]

  -- With all of these conditions, the run does go on.
  pub tick-MayRun :
      (elapsed : ℕ) (l : PregelLoop S U J F W)
      → MayRun elapsed l
      → tick env elapsed l ≡ (l, ok true)
  unfolding tick tick_pending tick_interrupt
  tick-MayRun elapsed l m =
      let limit : leb l.runnable_config.recursion_limit l.step ≡ false =
        ground (arith, m.within_limit) in
      tick-tick_pending elapsed l limit m.not_cancelled m.within_budget
      ∙ simp (tick_pending, m.has_tasks, tick_interrupt, m.not_interrupted) refl
