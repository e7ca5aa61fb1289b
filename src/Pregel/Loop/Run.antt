-- ===== src/Pregel/Loop/Run.antt =====
-- crates/juncture-core/src/graph/compiled.rs: the loop with which `invoke_async_inner`, `resume`
-- and the streams drive a `PregelLoop`. The runner, the clocks and the fresh ids of a round are
-- given as functions of the number of the round. The rounds are counted by fuel, and `none` is a
-- loop that is cut off.
use juncture.Prelude.{ℕ, zero, suc, ◌+◌, true, false, Option, none, some}
use juncture.Prelude.Result.{Result, ok, err}
use juncture.Pregel.Types.{JunctureError}
use juncture.Pregel.Loop.{Env, PregelLoop}
use juncture.Pregel.Loop.Tick.{tick}
use juncture.Pregel.Loop.Superstep.{Runner, execute_superstep}
use juncture.Pregel.Loop.AfterTick.{after_tick}
use juncture.Pregel.Loop.Merging.{Ids, then_step}

-- What the outside gives in one round of the loop.
pub record Round (S U J : Type 0) : Type 0 where
  pub budget_time : ℕ
  pub started : ℕ
  pub ended : ℕ
  pub run : Runner S U J
  pub ids : Ids

module _ {S U J F W : Type 0} (env : Env S U J F W) where
  -- The body of the `while`: a superstep and what follows it.
  unfoldable pub superstep :
      Round S U J → PregelLoop S U J F W → PregelLoop S U J F W × Result JunctureError (Unit {0})
  superstep round l =
      then_step (execute_superstep env round.run round.started round.ended l)
        (λ ran result. after_tick env round.ids ran result)

  -- `n` rounds are done.
  unfoldable pub drive :
      (ℕ → Round S U J)
      → ℕ
      → ℕ
      → PregelLoop S U J F W
      → Option (PregelLoop S U J F W × Result JunctureError (Unit {0}))
  drive rounds zero n l = none
  drive rounds (suc fuel) n l =
      let ticked = tick env (rounds n).budget_time l in
      elim ticked.1 [
        | err e ↦ some (ticked.0, err e)
        | ok false ↦ some (ticked.0, ok tt)
        | ok true ↦
            let done = superstep (rounds n) ticked.0 in
            elim done.1 [ err e ↦ some (done.0, err e) | ok _ ↦ drive rounds fuel (n + 1) done.0 ]
      ]
