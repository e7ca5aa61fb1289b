-- ===== src/Pregel/Loop/Quiet.antt =====
-- crates/juncture-core/src/pregel/loop_.rs: a superstep in which nothing interrupts moves the step.
use juncture.Prelude.{
  ℕ, ◌+◌, String, ◌≡◌, refl, sym, ap, ◌∙◌, Option, none, some, List, [], ◌++◌, arith, or_empty,
}
use juncture.Prelude.Result.{Result, ok, err}
use juncture.Pregel.Types.{JunctureError, PendingTask, TaskOutput}
use juncture.Pregel.Gate.{Gate, record_circuit_breaker_results, check_circuit_breakers}
use juncture.Pregel.Interrupts.{InterruptSignal, Scratchpad}
use juncture.Pregel.Loop.{Env, PregelLoop}
use juncture.Pregel.Loop.Saving.{write_checkpoint, save_superstep_checkpoint}
use juncture.Pregel.Loop.Superstep.{
  SuperstepResult, BubbleUp, Runner, mark_processed, has_bubble_ups, resolve_state_json, gate_of,
  with_gate, run_tasks, execute_superstep,
}
use juncture.Pregel.Loop.AfterTick.{
  handle_bubble_ups, complete_step, check_interrupt_after, end_superstep, bubble_superstep,
  conclude, after_tick,
}
use juncture.Pregel.Loop.Merging.{Ids, merge_writes, settle, schedule}
use juncture.Pregel.Loop.Run.{Round, superstep}
use juncture.Pregel.Loop.Progress.{after_tick-After}
use juncture.Pregel.Loop.Keeping.{
  then_step-rule, Kept, kept, Kept-trans, Kept-merge_writes, Kept-schedule,
  Kept-save_superstep_checkpoint,
}

-- The nodes send no interrupt, and no subgraph bubbles one up.
abbrev pub Quiet : {S U J : Type 0} → Runner S U J → Type 0
Quiet {S} {U} {J} run =
    (tasks : List (PendingTask S J)) (state : S) (pending : List (InterruptSignal J))
    (pad : Scratchpad J)
    → (result : SuperstepResult U J) (signals : List (InterruptSignal J))
    → run tasks state pending pad ≡ ok (result, signals)
    → (signals ≡ []) × (result.bubble_ups ≡ [])

module _ {S U J F W : Type 0} (env : Env S U J F W) where
  -- With no signal, no bubble-up and no node to interrupt after, the step is completed.
  conclude-quiet :
      (ids : Ids) (result : SuperstepResult U J) (m : PregelLoop S U J F W)
      → or_empty m.interrupt_rx ≡ []
      → result.bubble_ups ≡ []
      → m.runnable_config.interrupt_after ≡ none
      → (conclude env ids result m).0.step ≡ m.step + 1
  unfolding conclude bubble_superstep end_superstep has_bubble_ups handle_bubble_ups
      check_interrupt_after complete_step
  conclude-quiet ids result m r b a =
      simp (conclude, r, bubble_superstep, b, end_superstep, a, complete_step) refl

  rx-merge_writes :
      (l : PregelLoop S U J F W) (outputs : List (TaskOutput U J))
      → (merge_writes env l outputs).0.interrupt_rx ≡ l.interrupt_rx
  unfolding merge_writes
  rx-merge_writes l outputs = ground arith

  rx-schedule :
      (ids : Ids) (l : PregelLoop S U J F W) (outputs : List (TaskOutput U J))
      → (schedule env ids l outputs).0.interrupt_rx ≡ l.interrupt_rx
  unfolding schedule
  rx-schedule ids l outputs = ground arith

  rx-save_superstep_checkpoint :
      (id : String) (l : PregelLoop S U J F W)
      → (save_superstep_checkpoint env id l).0.interrupt_rx ≡ l.interrupt_rx
  unfolding save_superstep_checkpoint write_checkpoint
  rx-save_superstep_checkpoint id l = ground arith

  Kept-execute_superstep :
      (run : Runner S U J) (now ended : ℕ) (l : PregelLoop S U J F W)
      → Kept l (execute_superstep env run now ended l).0
  unfolding execute_superstep run_tasks
  Kept-execute_superstep run now ended l = kept (ground arith)

  after_tick-quiet :
      (ids : Ids) (l : PregelLoop S U J F W) (result : SuperstepResult U J)
      → or_empty l.interrupt_rx ≡ []
      → result.bubble_ups ≡ []
      → l.runnable_config.interrupt_after ≡ none
      → (after_tick env ids l result).1 ≡ ok tt
      → (after_tick env ids l result).0.step ≡ l.step + 1
  unfolding after_tick settle
  after_tick-quiet ids l result r b a =
      let merged = merge_writes env l result.task_outputs in
      let k = Kept-merge_writes env l result.task_outputs in
      then_step-rule Steps merged _ (λ e q. λ z. ground arith)
        (λ total q.
          let settled = settle env merged.0 result.task_outputs l.field_versions.versions total in
          let scheduled = schedule env ids settled result.task_outputs in
          let k1 = Kept-trans k (
            Kept-trans (kept (refl, refl, refl))
              (Kept-schedule env ids settled result.task_outputs)) in
          then_step-rule Steps scheduled _ (λ e q. λ z. ground arith)
            (λ _ q.
              let marked = record scheduled.0 { previous_superstep_changed_fields = total } in
              let saved = save_superstep_checkpoint env ids.superstep_checkpoint marked in
              let k2 = Kept-trans k1 (
                Kept-trans (kept (refl, refl, refl))
                  (Kept-save_superstep_checkpoint env ids.superstep_checkpoint marked)) in
              then_step-rule Steps saved _ (λ e q. λ z. ground arith)
                (λ _ q. λ z.
                  conclude-quiet ids result saved.0
                    (ap (λ (o : Option (List (InterruptSignal J))). or_empty o)
                        (rx-save_superstep_checkpoint ids.superstep_checkpoint marked
                          ∙ rx-schedule ids settled result.task_outputs
                          ∙ rx-merge_writes l result.task_outputs)
                      ∙ r)
                    b (k2.limits.after ∙ a)
                  ∙ ap (λ (n : ℕ). n + 1) k2.same_step)))
    where
      Steps : PregelLoop S U J F W × Result JunctureError (Unit {0}) → Type 0
      Steps p = p.1 ≡ ok tt → p.0.step ≡ l.step + 1

  -- An answer whose signals are empty, and whose subgraphs bubbled nothing up.
  Quiets : PregelLoop S U J F W × Result JunctureError (SuperstepResult U J) → Type 0
  Quiets p =
      (result : SuperstepResult U J)
      → p.1 ≡ ok result
      → (or_empty p.0.interrupt_rx ≡ []) × (result.bubble_ups ≡ [])

  run_tasks-Quiets :
      (run : Runner S U J) (ended : ℕ) (l : PregelLoop S U J F W) (blocked : List (TaskOutput U J))
      → Quiet run
      → Quiets (run_tasks env run ended l blocked)
  unfolding run_tasks Quiets
  run_tasks-Quiets run ended l blocked quiet =
      go (run l.pending_tasks l.state l.pending_interrupts l.scratchpad)
        (quiet l.pending_tasks l.state l.pending_interrupts l.scratchpad)
    where
      bubbled : Result JunctureError (SuperstepResult U J) → List (BubbleUp U J)
      bubbled (ok r) = r.bubble_ups
      bubbled (err e) = []

      go :
          (answer : Result JunctureError (SuperstepResult U J × List (InterruptSignal J)))
          → ((result : SuperstepResult U J) (signals : List (InterruptSignal J))
              → answer ≡ ok (result, signals)
              → (signals ≡ []) × (result.bubble_ups ≡ []))
          → Quiets (elim answer [
            | err e ↦ (l, err e)
            | ok (result, signals) ↦ (
              record (with_gate l
                  (record_circuit_breaker_results ended (gate_of l) result.task_outputs)) {
                    scratchpad = mark_processed l.pending_interrupts l.scratchpad;
                    interrupt_rx = some signals;
                  },
              ok (record result { task_outputs = result.task_outputs ++ blocked }),
            )
          ])
      go (err e) q result z = ground arith
      go (ok (given, signals)) q result z =
          let (none_sent, none_bubbled) = q given signals refl in
          (
            none_sent,
            ap (λ (r : Result JunctureError (SuperstepResult U J)). bubbled r) (sym z)
                ∙ none_bubbled,
          )

  execute_superstep-Quiets :
      (run : Runner S U J) (now ended : ℕ) (l : PregelLoop S U J F W)
      → Quiet run
      → Quiets (execute_superstep env run now ended l)
  unfolding execute_superstep Quiets
  execute_superstep-Quiets run now ended l quiet =
      go (resolve_state_json env.from_value l.pending_tasks).1
    where
      l1 : PregelLoop S U J F W
      l1 = record l { pending_tasks = (resolve_state_json env.from_value l.pending_tasks).0 }

      checked : Gate S J × List (TaskOutput U J)
      checked = check_circuit_breakers env.show now (gate_of l1)

      go :
          (answer : Result JunctureError (Unit {0}))
          → Quiets (elim answer [
            | err e ↦ (l1, err e)
            | ok _ ↦ run_tasks env run ended (with_gate l1 checked.0) checked.1
          ])
      go (err e) result z = ground arith
      go (ok _) result z =
          run_tasks-Quiets run ended (with_gate l1 checked.0) checked.1 quiet result z

  pub superstep-Quiet :
      (round : Round S U J) (l : PregelLoop S U J F W)
      → Quiet round.run
      → l.runnable_config.interrupt_after ≡ none
      → (superstep env round l).1 ≡ ok tt
      → ((superstep env round l).0.step ≡ l.step + 1)
        × ((superstep env round l).0.runnable_config.recursion_limit
            ≡ l.runnable_config.recursion_limit)
        × ((superstep env round l).0.runnable_config.interrupt_after ≡ none)
  unfolding superstep Quiets
  superstep-Quiet round l quiet a =
      let ran = execute_superstep env round.run round.started round.ended l in
      let k = Kept-execute_superstep round.run round.started round.ended l in
      then_step-rule Next ran _ (λ e q z. ground arith)
        (λ result q z.
          let (r, b) =
            execute_superstep-Quiets round.run round.started round.ended l quiet result q in
          let limits = (after_tick-After env round.ids ran.0 result).limits in
          (
            after_tick-quiet round.ids ran.0 result r b (k.limits.after ∙ a) z
                ∙ ap (λ (n : ℕ). n + 1) k.same_step,
            limits.limit ∙ k.limits.limit,
            limits.after ∙ k.limits.after ∙ a,
          ))
    where
      Next : PregelLoop S U J F W × Result JunctureError (Unit {0}) → Type 0
      Next p =
          p.1 ≡ ok tt
          → (p.0.step ≡ l.step + 1)
            × (p.0.runnable_config.recursion_limit ≡ l.runnable_config.recursion_limit)
            × (p.0.runnable_config.interrupt_after ≡ none)
