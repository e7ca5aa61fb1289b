-- ===== src/Pregel/Loop/Keeping.antt =====
-- crates/juncture-core/src/pregel/loop_.rs: what the parts of `after_tick` leave as it is.
use juncture.Prelude.{◌+◌, String, ◌≡◌, refl, ◌∙◌, Bool, true, false, List, [], ◌∷◌, arith}
use juncture.Prelude.Result.{Result, ok, err}
use juncture.Pregel.Types.{
  JunctureError, LoopStatus, is_running, TaskOutput, Command, interrupt_after, drained,
}
use juncture.Pregel.Loop.{Env, PregelLoop, Checkpoint, CheckpointMetadata}
use juncture.Pregel.Loop.Tick.{finish_channels}
use juncture.Pregel.Loop.Saving.{
  write_checkpoint, save_interrupt_checkpoint, save_superstep_checkpoint, save_exit_checkpoint,
}
use juncture.Pregel.Loop.Superstep.{BubbleUp, interrupt, drained_by, parent_command}
use juncture.Pregel.Loop.AfterTick.{handle_bubble_up_parent_command, handle_bubble_ups}
use juncture.Pregel.Loop.Merging.{Ids, then_step, merge_writes, schedule}
use juncture.Pregel.Loop.Ticking.{Stopped}

-- The statuses with which `after_tick` stops the loop: an interrupt or a drain.
unfoldable pub is_halted : {I : Type 0} → LoopStatus I → Bool
is_halted (interrupt_after signals) = true
is_halted drained = true
is_halted _ = false

pub is_running-is_halted :
    {I : Type 0} (s : LoopStatus I) → is_halted s ≡ true → is_running s ≡ false
unfolding is_running is_halted
is_running-is_halted s h = ground arith

module _ {S U J F W : Type 0} where
  pub then_step-rule :
      {A B : Type 0} (P : PregelLoop S U J F W × Result JunctureError B → Type 0)
      → (x : PregelLoop S U J F W × Result JunctureError A)
      → (next : PregelLoop S U J F W → A → PregelLoop S U J F W × Result JunctureError B)
      → ((e : JunctureError) → x.1 ≡ err e → P (x.0, err e))
      → ((a : A) → x.1 ≡ ok a → P (next x.0 a))
      → P (then_step x next)
  then_step-rule P (l, ok a) next f g = g a refl
  then_step-rule P (l, err e) next f g = f e refl

  -- The settings that bound a run.
  pub record SameLimits (l l' : PregelLoop S U J F W) : Type 0 where
    pub limit : l'.runnable_config.recursion_limit ≡ l.runnable_config.recursion_limit
    pub after : l'.runnable_config.interrupt_after ≡ l.runnable_config.interrupt_after

  pub record Kept (l l' : PregelLoop S U J F W) : Type 0 where
    pub same_step : l'.step ≡ l.step
    pub limits : SameLimits l l'

  pub kept :
      {l l' : PregelLoop S U J F W}
      → (l'.step ≡ l.step)
        × (l'.runnable_config.recursion_limit ≡ l.runnable_config.recursion_limit)
        × (l'.runnable_config.interrupt_after ≡ l.runnable_config.interrupt_after)
      → Kept l l'
  kept (s, r, a) = record { same_step = s; limits = record { limit = r; after = a } }

  pub Kept-trans : {l m n : PregelLoop S U J F W} → Kept l m → Kept m n → Kept l n
  Kept-trans a b =
      kept (
        b.same_step ∙ a.same_step,
        b.limits.limit ∙ a.limits.limit,
        b.limits.after ∙ a.limits.after,
      )

  -- What a call of `after_tick` has done: it failed with the step as it was, or moved the step by
  -- one, or stopped the loop with the step as it was, by an
  -- interrupt or a drain.
  pub data Moved (l l' : PregelLoop S U J F W) : Result JunctureError (Unit {0}) → Type 0 where
    aborted : (e : JunctureError) → l'.step ≡ l.step → Moved l l' (err e)
    moved : l'.step ≡ l.step + 1 → Moved l l' (ok tt)
    stopped : l'.step ≡ l.step → Stopped l' → is_halted l'.status ≡ true → Moved l l' (ok tt)

  pub record After (l : PregelLoop S U J F W)
      (p : PregelLoop S U J F W × Result JunctureError (Unit {0})) : Type 0 where
    pub limits : SameLimits l p.0
    pub outcome : Moved l p.0 p.1

module _ {S U J F W : Type 0} (env : Env S U J F W) where
  pub Kept-finish_channels : (l : PregelLoop S U J F W) → Kept l (finish_channels env l)
  unfolding finish_channels
  Kept-finish_channels l = kept (refl, refl, refl)

  pub Kept-write_checkpoint :
      (l : PregelLoop S U J F W) (saver : W) (c : Checkpoint J) (m : CheckpointMetadata)
      → Kept l (write_checkpoint env l saver c m).0
  unfolding write_checkpoint
  Kept-write_checkpoint l saver c m = kept (ground arith)

  pub Kept-save_interrupt_checkpoint :
      (id : String) (l : PregelLoop S U J F W) (node : String)
      → Kept l (save_interrupt_checkpoint env id l node).0
  unfolding save_interrupt_checkpoint write_checkpoint
  Kept-save_interrupt_checkpoint id l node = kept (ground arith)

  pub Kept-save_superstep_checkpoint :
      (id : String) (l : PregelLoop S U J F W) → Kept l (save_superstep_checkpoint env id l).0
  unfolding save_superstep_checkpoint write_checkpoint
  Kept-save_superstep_checkpoint id l = kept (ground arith)

  pub Kept-save_exit_checkpoint :
      (id : String) (l : PregelLoop S U J F W) → Kept l (save_exit_checkpoint env id l)
  unfolding save_exit_checkpoint
  Kept-save_exit_checkpoint id l = kept (ground arith)

  pub Kept-merge_writes :
      (l : PregelLoop S U J F W) (outputs : List (TaskOutput U J))
      → Kept l (merge_writes env l outputs).0
  unfolding merge_writes
  Kept-merge_writes l outputs = kept (ground arith)

  pub Kept-schedule :
      (ids : Ids) (l : PregelLoop S U J F W) (outputs : List (TaskOutput U J))
      → Kept l (schedule env ids l outputs).0
  unfolding schedule
  Kept-schedule ids l outputs = kept (ground arith)

  pub Kept-parent_command :
      (c : Command U J) (l : PregelLoop S U J F W)
      → Kept l (handle_bubble_up_parent_command env c l)
  unfolding handle_bubble_up_parent_command
  Kept-parent_command c l = kept (ground arith)

  pub Kept-handle_bubble_ups :
      (ups : List (BubbleUp U J)) (l : PregelLoop S U J F W) (stop : Bool)
      → Kept l (handle_bubble_ups env ups l stop).0
  unfolding handle_bubble_ups
  Kept-handle_bubble_ups [] l stop = kept (refl, refl, refl)
  Kept-handle_bubble_ups (interrupt signals ∷ ups) l stop = Kept-trans (kept (refl, refl, refl)) (
      Kept-handle_bubble_ups ups
        (record l { pending_interrupts = signals; status = interrupt_after signals }) true)
  Kept-handle_bubble_ups (drained_by reason ∷ ups) l stop =
      Kept-trans (kept (refl, refl, refl))
        (Kept-handle_bubble_ups ups (record l { status = drained }) true)
  Kept-handle_bubble_ups (parent_command c ∷ ups) l stop =
      Kept-trans (Kept-parent_command c l)
        (Kept-handle_bubble_ups ups (handle_bubble_up_parent_command env c l) stop)

  -- Where the bubble-ups ask for a stop, the status is an interrupt or a drain.
  pub status-handle_bubble_ups :
      (ups : List (BubbleUp U J)) (l : PregelLoop S U J F W) (stop : Bool)
      → (stop ≡ true → is_halted l.status ≡ true)
      → (handle_bubble_ups env ups l stop).1 ≡ true
      → is_halted (handle_bubble_ups env ups l stop).0.status ≡ true
  unfolding handle_bubble_ups is_halted handle_bubble_up_parent_command
  status-handle_bubble_ups [] l stop h e = h e
  status-handle_bubble_ups (interrupt signals ∷ ups) l stop h e =
      status-handle_bubble_ups ups
        (record l { pending_interrupts = signals; status = interrupt_after signals }) true
        (λ q. refl) e
  status-handle_bubble_ups (drained_by reason ∷ ups) l stop h e =
      status-handle_bubble_ups ups (record l { status = drained }) true (λ q. refl) e
  status-handle_bubble_ups (parent_command c ∷ ups) l stop h e =
      status-handle_bubble_ups ups (handle_bubble_up_parent_command env c l) stop
        (λ q. ground (arith, h q)) e

  pub status-save_interrupt_checkpoint :
      (id : String) (l : PregelLoop S U J F W) (node : String)
      → (save_interrupt_checkpoint env id l node).0.status ≡ l.status
  unfolding save_interrupt_checkpoint write_checkpoint
  status-save_interrupt_checkpoint id l node = ground arith
