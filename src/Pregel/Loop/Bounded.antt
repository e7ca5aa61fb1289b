-- ===== src/Pregel/Loop/Bounded.antt =====
-- crates/juncture-core/src/graph/compiled.rs and pregel/loop_.rs: a run in which nothing interrupts
-- ends within the recursion limit.
use juncture.Prelude.{
  ℕ, zero, suc, ◌+◌, ◌-◌, ◌<◌, ◌≡◌, refl, ap, ◌∙◌, inl, inr, Bool, true, false, Option, none, some,
  arith,
}
use juncture.Prelude.Result.{Result, ok, err}
use juncture.Pregel.Types.{JunctureError}
use juncture.Pregel.Loop.{Env, PregelLoop}
use juncture.Pregel.Loop.Tick.{tick}
use juncture.Pregel.Loop.Run.{Round, superstep, drive}
use juncture.Pregel.Loop.Ticking.{goes_on, tick-Decided}
use juncture.Pregel.Loop.Quiet.{Quiet, superstep-Quiet}

module _ {S U J F W : Type 0} (env : Env S U J F W) where
  abbrev pub Ends : Option (PregelLoop S U J F W × Result JunctureError (Unit {0})) → Type 0
  Ends o = (p : PregelLoop S U J F W × Result JunctureError (Unit {0})) × (o ≡ some p)

  round-Ends :
      (done : PregelLoop S U J F W × Result JunctureError (Unit {0}))
      → (next : PregelLoop S U J F W
          → Option (PregelLoop S U J F W × Result JunctureError (Unit {0})))
      → (done.1 ≡ ok tt → Ends (next done.0))
      → Ends (elim done.1 [ err e ↦ some (done.0, err e) | ok _ ↦ next done.0 ])
  round-Ends (l, err e) next h = ((l, err e), refl)
  round-Ends (l, ok _) next h = h refl

  ticked-Ends :
      (ticked : PregelLoop S U J F W × Result JunctureError Bool)
      → (next : PregelLoop S U J F W
          → Option (PregelLoop S U J F W × Result JunctureError (Unit {0})))
      → (ticked.1 ≡ ok true → Ends (next ticked.0))
      → Ends (elim ticked.1 [
        | err e ↦ some (ticked.0, err e)
        | ok false ↦ some (ticked.0, ok tt)
        | ok true ↦ next ticked.0
      ])
  ticked-Ends (l, err e) next h = ((l, err e), refl)
  ticked-Ends (l, ok false) next h = ((l, ok tt), refl)
  ticked-Ends (l, ok true) next h = h refl

  ticked-same :
      (elapsed : ℕ) (l : PregelLoop S U J F W)
      → (tick env elapsed l).1 ≡ ok true
      → (l.step < l.runnable_config.recursion_limit) × (tick env elapsed l ≡ (l, ok true))
  unfolding goes_on
  ticked-same elapsed l e = elim (tick-Decided env elapsed l) [
    | inl (m, q) ↦ (m.within_limit, q)
    | inr (s, q) ↦ absurd (ground (arith, ap goes_on e, q))
  ]

  -- A run ends where no node interrupts, no subgraph bubbles an event up and no node is listed to
  -- interrupt after: with more rounds allowed than there are steps left to the recursion limit, the
  -- driver gives a result, whatever the nodes compute.
  pub drive-Ends :
      (rounds : ℕ → Round S U J) (fuel n : ℕ) (l : PregelLoop S U J F W)
      → ((k : ℕ) → Quiet (rounds k).run)
      → l.runnable_config.interrupt_after ≡ none
      → l.runnable_config.recursion_limit - l.step < fuel
      → Ends (drive env rounds fuel n l)
  unfolding drive
  drive-Ends rounds zero n l quiet a h = absurd (omega (arith, h))
  drive-Ends rounds (suc fuel) n l quiet a h =
      ticked-Ends (tick env (rounds n).budget_time l)
        (λ m. elim (superstep env (rounds n) m).1 [
          | err e ↦ some ((superstep env (rounds n) m).0, err e)
          | ok _ ↦ drive env rounds fuel (n + 1) (superstep env (rounds n) m).0
        ])
        (λ e.
          let (below, same) = ticked-same (rounds n).budget_time l e in
          let m = (tick env (rounds n).budget_time l).0 in
          let m_l : m ≡ l =
            ap (λ (p : PregelLoop S U J F W × Result JunctureError Bool). p.0) same in
          round-Ends (superstep env (rounds n) m) (drive env rounds fuel (n + 1)) (λ q.
            let (stepped, limit, after) =
              superstep-Quiet env (rounds n) m (quiet n)
                (ap (λ (x : PregelLoop S U J F W). x.runnable_config.interrupt_after) m_l ∙ a) q in
            drive-Ends rounds fuel (n + 1) (superstep env (rounds n) m).0 quiet after (
              omega (
                arith,
                stepped,
                limit,
                below,
                h,
                ap (λ (x : PregelLoop S U J F W). x.step) m_l,
                ap (λ (x : PregelLoop S U J F W). x.runnable_config.recursion_limit) m_l,
              ))))
