-- ===== src/Pregel/Loop/Progress.antt =====
-- crates/juncture-core/src/pregel/loop_.rs: how `after_tick` moves the step, and what it leaves
-- where it stops the loop.
use juncture.Prelude.{
  ℕ, ◌+◌, ◌≡◌, refl, ap, ◌∙◌, Bool, true, false, ◌&&◌, Option, none, some, List, [], ◌∷◌, arith,
  or_empty,
}
use juncture.Prelude.Result.{Result, ok, err}
use juncture.Pregel.Types.{JunctureError, is_interrupted, interrupt_after}
use juncture.Pregel.Interrupts.{InterruptSignal}
use juncture.Pregel.Loop.{Env, PregelLoop}
use juncture.Pregel.Loop.Tick.{finish_channels, interrupted_by}
use juncture.Pregel.Loop.Saving.{
  save_interrupt_checkpoint, save_superstep_checkpoint, save_exit_checkpoint, interrupt_node_name,
}
use juncture.Pregel.Loop.Superstep.{SuperstepResult, has_bubble_ups}
use juncture.Pregel.Loop.AfterTick.{
  stop_interrupted, handle_bubble_ups, complete_step, check_interrupt_after, end_superstep,
  bubble_superstep, conclude, after_tick,
}
use juncture.Pregel.Loop.Merging.{Ids, merge_writes, settle, schedule}
use juncture.Pregel.Loop.Ticking.{finish_channels-Stopped}
use juncture.Pregel.Loop.Keeping.{
  then_step-rule, is_halted, is_running-is_halted, Kept, kept, Kept-trans, After,
  Kept-finish_channels, Kept-save_interrupt_checkpoint, Kept-save_superstep_checkpoint,
  Kept-merge_writes, Kept-schedule, Kept-handle_bubble_ups, status-handle_bubble_ups,
  status-save_interrupt_checkpoint, moved, aborted, stopped,
}

module _ {S U J F W : Type 0} (env : Env S U J F W) where
  stopped_at :
      (l m : PregelLoop S U J F W)
      → Kept l m
      → is_halted m.status ≡ true
      → After l (finish_channels env m, ok tt)
  unfolding finish_channels
  stopped_at l m k r =
      let k' = Kept-trans k (Kept-finish_channels env m) in
      record {
        limits = k'.limits;
        outcome =
            stopped k'.same_step (finish_channels-Stopped env m (is_running-is_halted m.status r))
              r;
      }

  After-stop_interrupted :
      (ids : Ids) (l m : PregelLoop S U J F W)
      → Kept l m
      → is_halted m.status ≡ true
      → After l (stop_interrupted env ids m)
  unfolding stop_interrupted
  After-stop_interrupted ids l m k r =
      let saved =
        save_interrupt_checkpoint env ids.interrupt_checkpoint m (interrupt_node_name env m) in
      let k' = Kept-trans k (
        Kept-save_interrupt_checkpoint env ids.interrupt_checkpoint m
          (interrupt_node_name env m)) in
      let same =
        status-save_interrupt_checkpoint env ids.interrupt_checkpoint m
          (interrupt_node_name env m) in
      then_step-rule (After l) saved (λ n _. (finish_channels env n, ok tt))
        (λ e q. record { limits = k'.limits; outcome = aborted e k'.same_step })
        (λ a q. stopped_at l saved.0 k' (ap is_halted same ∙ r))

  After-complete_step :
      (ids : Ids) (l m : PregelLoop S U J F W) → Kept l m → After l (complete_step env ids m, ok tt)
  unfolding complete_step save_exit_checkpoint finish_channels
  After-complete_step ids l m k = record {
    limits = record {
      limit = ground (arith, k.limits.limit);
      after = ground (arith, k.limits.after);
    };
    outcome = moved (ap (λ (n : ℕ). n + 1) k.same_step);
  }

  After-end_superstep :
      (ids : Ids) (l m : PregelLoop S U J F W) → Kept l m → After l (end_superstep env ids m)
  unfolding end_superstep is_halted interrupted_by
  After-end_superstep ids l m k = go (check_interrupt_after env m)
    where
      go :
          (o : Option (List (InterruptSignal J)))
          → After l (elim o [
            | some signals ↦
                stop_interrupted env ids (interrupted_by env m signals (interrupt_after signals))
            | none ↦ (complete_step env ids m, ok tt)
          ])
      go none = After-complete_step ids l m k
      go (some signals) =
          After-stop_interrupted ids l (interrupted_by env m signals (interrupt_after signals))
            (Kept-trans k (kept (refl, refl, refl))) refl

  After-bubble_superstep :
      (ids : Ids) (result : SuperstepResult U J) (l m : PregelLoop S U J F W)
      → Kept l m
      → After l (bubble_superstep env ids result m)
  unfolding bubble_superstep
  After-bubble_superstep ids result l m k =
      let k' = Kept-trans k (Kept-handle_bubble_ups env result.bubble_ups m false) in
      go (handle_bubble_ups env result.bubble_ups m false) (has_bubble_ups result) k'
        (status-handle_bubble_ups env result.bubble_ups m false (λ q. ground arith))
    where
      go :
          (h : PregelLoop S U J F W × Bool) (b : Bool)
          → Kept l h.0
          → (h.1 ≡ true → is_halted h.0.status ≡ true)
          → After l (elim (b && h.1) [
            | true ↦ elim (is_interrupted h.0.status) [
              | true ↦ stop_interrupted env ids h.0
              | false ↦ (finish_channels env h.0, ok tt)
            ]
            | false ↦ end_superstep env ids h.0
          ])
      go (n, false) false k s = After-end_superstep ids l n k
      go (n, false) true k s = After-end_superstep ids l n k
      go (n, true) false k s = After-end_superstep ids l n k
      go (n, true) true k s = stop (is_interrupted n.status)
        where
          stop :
              (b : Bool)
              → After l (elim b [
                | true ↦ stop_interrupted env ids n
                | false ↦ (finish_channels env n, ok tt)
              ])
          stop true = After-stop_interrupted ids l n k (s refl)
          stop false = stopped_at l n k (s refl)

  After-conclude :
      (ids : Ids) (result : SuperstepResult U J) (l m : PregelLoop S U J F W)
      → Kept l m
      → After l (conclude env ids result m)
  unfolding conclude is_halted
  After-conclude ids result l m k = go (or_empty m.interrupt_rx)
    where
      go :
          (signals : List (InterruptSignal J))
          → After l (elim signals [
            | [] ↦ bubble_superstep env ids result (record m { interrupt_rx = none })
            | signal ∷ rest ↦ stop_interrupted env ids (record m {
              interrupt_rx = none;
              pending_interrupts = signal ∷ rest;
              status = interrupt_after (signal ∷ rest);
            })
          ])
      go [] =
          After-bubble_superstep ids result l (record m { interrupt_rx = none })
            (Kept-trans k (kept (refl, refl, refl)))
      go (signal ∷ rest) =
          After-stop_interrupted ids l
            (record m {
              interrupt_rx = none;
              pending_interrupts = signal ∷ rest;
              status = interrupt_after (signal ∷ rest);
            })
            (Kept-trans k (kept (refl, refl, refl))) refl

  failed_with :
      {A : Type 0} (l : PregelLoop S U J F W) (x : PregelLoop S U J F W × Result JunctureError A)
      → Kept l x.0
      → (e : JunctureError) → After l (x.0, err e)
  failed_with l x k e = record { limits = k.limits; outcome = aborted e k.same_step }

  -- `after_tick` keeps the recursion limit and the nodes to interrupt after. It fails and leaves
  -- the step, or answers `Ok` with the step one higher, or answers `Ok` with the step as it was and
  -- the loop stopped: its channels finished and its status `InterruptAfter` or `Drained`.
  pub after_tick-After :
      (ids : Ids) (l : PregelLoop S U J F W) (result : SuperstepResult U J)
      → After l (after_tick env ids l result)
  unfolding after_tick settle
  after_tick-After ids l result =
      let merged = merge_writes env l result.task_outputs in
      let k = Kept-merge_writes env l result.task_outputs in
      then_step-rule (After l) merged _ (λ e q. failed_with l merged k e)
        (λ total q.
          let settled = settle env merged.0 result.task_outputs l.field_versions.versions total in
          let scheduled = schedule env ids settled result.task_outputs in
          let k1 = Kept-trans k (
            Kept-trans (kept (refl, refl, refl))
              (Kept-schedule env ids settled result.task_outputs)) in
          then_step-rule (After l) scheduled _ (λ e q. failed_with l scheduled k1 e)
            (λ a q.
              let marked = record scheduled.0 { previous_superstep_changed_fields = total } in
              let saved = save_superstep_checkpoint env ids.superstep_checkpoint marked in
              let k2 = Kept-trans k1 (
                Kept-trans (kept (refl, refl, refl))
                  (Kept-save_superstep_checkpoint env ids.superstep_checkpoint marked)) in
              then_step-rule (After l) saved _ (λ e q. failed_with l saved k2 e)
                (λ a q. After-conclude ids result l saved.0 k2)))
