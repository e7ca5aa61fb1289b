-- ===== src/Pregel/Loop/Rollback.antt =====
-- crates/juncture-core/src/pregel/loop_.rs: a superstep whose writes make the state too large.
use juncture.Prelude.{◌≡◌, refl, true, List, arith}
use juncture.Prelude.Result.{Result, ok, err}
use juncture.State.Fields.{FieldsChanged}
use juncture.Pregel.Types.{JunctureError, TaskOutput}
use juncture.Pregel.Writes.{apply_writes}
use juncture.Pregel.Loop.{Env, PregelLoop}
use juncture.Pregel.Loop.Superstep.{SuperstepResult}
use juncture.Pregel.Loop.AfterTick.{after_tick}
use juncture.Pregel.Loop.Merging.{
  Ids, executed, needs_snapshot, check_state_size_limit, merge_writes,
}

module _ {S U J F W : Type 0} (env : Env S U J F W) where
  -- The loop with the writes of the superstep in it.
  abbrev pub written : PregelLoop S U J F W → List (TaskOutput U J) → PregelLoop S U J F W
  written l outputs =
      let merged =
        apply_writes env.ops l.state (executed outputs) l.field_versions l.node_registration in
      record l { state = merged.0; field_versions = merged.1 }

  abbrev pub merge_result :
      PregelLoop S U J F W → List (TaskOutput U J) → Result JunctureError FieldsChanged
  merge_result l outputs =
      (apply_writes env.ops l.state (executed outputs) l.field_versions l.node_registration).2

  -- Only a loop with a size limit takes a snapshot, and only such a loop has the check fail.
  check-needs_snapshot :
      (l : PregelLoop S U J F W) (outputs : List (TaskOutput U J)) (total : FieldsChanged)
      (e : JunctureError)
      → check_state_size_limit env (written l outputs) total ≡ err e
      → needs_snapshot l ≡ true
  unfolding check_state_size_limit needs_snapshot
  check-needs_snapshot l outputs total e h = ground (arith, h)

  -- Where the writes of a superstep are merged but leave a state above the size limit, `after_tick`
  -- fails and the whole loop is as it was before the call.
  pub after_tick-rolled_back :
      (ids : Ids) (l : PregelLoop S U J F W) (result : SuperstepResult U J) (total : FieldsChanged)
      → (e : JunctureError) → merge_result l result.task_outputs ≡ ok total
      → check_state_size_limit env (written l result.task_outputs) total ≡ err e
      → after_tick env ids l result ≡ (l, err e)
  unfolding after_tick merge_writes
  after_tick-rolled_back ids l result total e m c =
      simp (after_tick, merge_writes, m, c, check-needs_snapshot l result.task_outputs total e c)
        refl
