-- ===== src/Pregel/Recovery/Budget.antt =====
-- How many recovery tasks a superstep can lead to.
use juncture.Prelude.{
  ℕ, ◌+◌, ◌≤◌, String, ◌≡◌, refl, ap, ◌∙◌, inl, inr, true, List, [], ◌∷◌, ◌++◌, arith, eq_refl,
  if◌then◌else◌, length, length-append, Map, contains, add, contains-add,
}
use juncture.Pregel.Types.{PendingTask, pull_task, TaskOutput}
use juncture.Pregel.Recovery.{
  failed, fall_back, schedule_fallback_tasks, handle_errors, schedule_error_handlers_filtered,
}
use juncture.Pregel.Recovery.Fallback.{fall_back_step, handle_errors_step, fall_back-handled}

-- How many outputs failed by themselves.
abbrev pub failures : {U J : Type 0} → List (TaskOutput U J) → ℕ
failures [] = 0
failures (o ∷ outputs) = let rest = failures outputs in if failed o then rest + 1 else rest

module _ {S J : Type 0} (uuid : ℕ → String) where
  abbrev pushed : List (PendingTask S J) → String → List (PendingTask S J)
  pushed tasks name = tasks ++ pull_task (uuid (length tasks)) name ∷ []

  length-pushed :
      (tasks : List (PendingTask S J)) (name : String)
      → length (pushed tasks name) ≡ length tasks + 1
  length-pushed tasks name = length-append tasks (pull_task (uuid (length tasks)) name ∷ [])

module _ {S U J : Type 0} (uuid : ℕ → String) (nodes : List String)
    (fallback_map handlers : Map String) where
  in_done :
      (o : TaskOutput U J) (outputs : List (TaskOutput U J)) (tasks : List (PendingTask S J))
      (handled done : List String)
      → done ≡ (fall_back uuid nodes fallback_map outputs tasks (add o.node_name handled)).1
      → contains o.node_name done ≡ true
  in_done o outputs tasks handled done h = rw h (
      fall_back-handled uuid nodes fallback_map outputs tasks (add o.node_name handled) o.node_name
        (contains-add o.node_name o.node_name handled ∙ ground (arith, eq_refl o.node_name)))

  recover_count :
      (outputs : List (TaskOutput U J)) (tasks more : List (PendingTask S J))
      (handled done : List String)
      → done ≡ (fall_back uuid nodes fallback_map outputs tasks handled).1
      → length (fall_back uuid nodes fallback_map outputs tasks handled).0
          + length (handle_errors uuid nodes handlers done outputs more)
        ≤ length tasks + length more + failures outputs
  unfolding fall_back handle_errors
  recover_count [] tasks more handled done h = omega arith
  recover_count (o ∷ outputs) tasks more handled done h =
      elim (fall_back_step uuid nodes fallback_map o outputs tasks handled) [
        | inl e ↦ elim (handle_errors_step uuid nodes handlers done o outputs more) [
          | inl d ↦
              rw (e, d)
                (ground
                  (arith, recover_count outputs tasks more handled done (h ∙ ap (λ p. p.1) e)))
          | inr (handler, f, c, g, d) ↦
              rw (e, d, f)
                (omega (
                  arith,
                  length-pushed uuid more handler,
                  recover_count outputs tasks (pushed uuid more handler) handled done
                      (h ∙ ap (λ p. p.1) e),
                ))
        ]
        | inr (fallback, f, g, e) ↦
            elim (handle_errors_step uuid nodes handlers done o outputs more) [
              | inl d ↦
                  rw (e, d, f)
                    (omega (
                      arith,
                      length-pushed uuid tasks fallback,
                      recover_count outputs (pushed uuid tasks fallback) more
                          (add o.node_name handled) done (h ∙ ap (λ p. p.1) e),
                    ))
              | inr (handler, x, c, y, d) ↦ cc (
                  in_done o outputs (pushed uuid tasks fallback) handled done (h ∙ ap (λ p. p.1) e))
            ]
      ]

module _ (S : Type 0) {U J : Type 0} (uuid : ℕ → String) (nodes : List String)
    (fallback_map handlers : Map String) where
  -- Fallbacks and error handlers together schedule at most one task for each output that failed
  -- by itself; an output blocked by its circuit breaker leads to none.
  pub recovery_tasks-le :
      (outputs : List (TaskOutput U J))
      → let (fallbacks, handled) =
          schedule_fallback_tasks {S = S} uuid nodes outputs fallback_map in
        length fallbacks
          + length (schedule_error_handlers_filtered {S = S} uuid nodes outputs handlers handled)
        ≤ failures outputs
  unfolding schedule_fallback_tasks schedule_error_handlers_filtered
  recovery_tasks-le outputs =
      omega (arith, recover_count {S = S} uuid nodes fallback_map handlers outputs [] [] [] _ refl)
