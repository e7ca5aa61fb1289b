-- ===== src/Pregel/Recovery/Fallback.antt =====
-- Which tasks the two recoveries schedule, one output at a time.
use juncture.Prelude.{
  ℕ, String, ◌≡◌, refl, ◌≢◌, ◌⊎◌, inl, inr, true, false, not, ◌&&◌, some, List, [], ◌∷◌, ◌++◌,
  arith, eq_iff, eq_refl, Bool-cases, Option-cases, length, All, Map, lookup, contains, add,
  contains-add,
}
use juncture.Pregel.Types.{PendingTask, pull, pull_task, TaskOutput}
use juncture.Pregel.Recovery.{
  may_fall_back, failed, fall_back, schedule_fallback_tasks, handle_errors,
}

module _ {S U J : Type 0} (uuid : ℕ → String) (nodes : List String) where
  -- An output is passed over, or it failed and its fallback is pushed.
  abbrev pub FallsBack :
      Map String
      → TaskOutput U J
      → List (TaskOutput U J)
      → List (PendingTask S J)
      → List String
      → Type 0
  FallsBack m o outputs tasks handled =
      (fall_back uuid nodes m (o ∷ outputs) tasks handled
        ≡ fall_back uuid nodes m outputs tasks handled)
      ⊎ ((fallback : String) × (failed o ≡ true)
          × (may_fall_back nodes handled o.node_name fallback ≡ true)
          × (fall_back uuid nodes m (o ∷ outputs) tasks handled
              ≡ fall_back uuid nodes m outputs
                  (tasks ++ pull_task (uuid (length tasks)) fallback ∷ [])
                  (add o.node_name handled)))

  pub fall_back_step :
      (m : Map String) (o : TaskOutput U J) (outputs : List (TaskOutput U J))
      (tasks : List (PendingTask S J)) (handled : List String)
      → FallsBack m o outputs tasks handled
  unfolding fall_back
  fall_back_step m o outputs tasks handled = elim (Bool-cases (failed o)) [
    | inr e ↦ inl (rw (e, fall_back))
    | inl e ↦ elim (Option-cases (lookup o.node_name m)) [
      | inl n ↦ inl (rw (e, n, fall_back))
      | inr (fallback, n) ↦ elim (Bool-cases (may_fall_back nodes handled o.node_name fallback)) [
        | inr g ↦ inl (rw (e, n, g, fall_back))
        | inl g ↦ inr (fallback, e, g, rw (e, n, g, fall_back))
      ]
    ]
  ]

  abbrev pub Handles :
      Map String
      → List String
      → TaskOutput U J
      → List (TaskOutput U J)
      → List (PendingTask S J)
      → Type 0
  Handles m done o outputs tasks =
      (handle_errors uuid nodes m done (o ∷ outputs) tasks
        ≡ handle_errors uuid nodes m done outputs tasks)
      ⊎ ((handler : String) × (failed o ≡ true)
          × (contains o.node_name done ≡ false)
          × (contains handler nodes ≡ true)
          × (handle_errors uuid nodes m done (o ∷ outputs) tasks
              ≡ handle_errors uuid nodes m done outputs
                  (tasks ++ pull_task (uuid (length tasks)) handler ∷ [])))

  pub handle_errors_step :
      (m : Map String) (done : List String) (o : TaskOutput U J) (outputs : List (TaskOutput U J))
      (tasks : List (PendingTask S J))
      → Handles m done o outputs tasks
  unfolding handle_errors
  handle_errors_step m done o outputs tasks =
      elim (Bool-cases (failed o && not (contains o.node_name done))) [
        | inr e ↦ inl (rw (e, handle_errors))
        | inl e ↦ elim (Option-cases (lookup o.node_name m)) [
          | inl n ↦ inl (rw (e, n, handle_errors))
          | inr (handler, n) ↦ elim (Bool-cases (contains handler nodes)) [
            | inr g ↦ inl (rw (e, n, g, handle_errors))
            | inl g ↦ inr (handler, ground arith, ground arith, g, rw (e, n, g, handle_errors))
          ]
        ]
      ]

  -- What was handled stays handled.
  pub fall_back-handled :
      (m : Map String) (outputs : List (TaskOutput U J)) (tasks : List (PendingTask S J))
      (handled : List String) (k : String)
      → contains k handled ≡ true
      → contains k (fall_back uuid nodes m outputs tasks handled).1 ≡ true
  unfolding fall_back
  fall_back-handled m [] tasks handled k h = h
  fall_back-handled m (o ∷ outputs) tasks handled k h =
      elim (fall_back_step m o outputs tasks handled) [
        | inl e ↦ rw e (fall_back-handled m outputs tasks handled k h)
        | inr (fallback, f, g, e) ↦ rw e (
            fall_back-handled m outputs (tasks ++ pull_task (uuid (length tasks)) fallback ∷ [])
              (add o.node_name handled) k (ground (arith, contains-add o.node_name k handled)))
      ]

may_fall_back-registered :
    (nodes handled : List String) (node fallback : String)
    → may_fall_back nodes handled node fallback ≡ true
    → contains fallback nodes ≡ true
unfolding may_fall_back
may_fall_back-registered nodes handled node fallback h = ground arith

first_guard :
    (nodes : List String) (a b : String)
    → a ≢ b
    → contains b nodes ≡ true
    → may_fall_back nodes [] a b ≡ true
unfolding may_fall_back
first_guard nodes a b ne r = ground (arith, eq_iff b a)

second_guard : (nodes : List String) (a b : String) → may_fall_back nodes (a ∷ []) b a ≡ false
unfolding may_fall_back
second_guard nodes a b = ground (arith, eq_refl a)

module _ {S J : Type 0} (nodes : List String) where
  -- Every task is a PULL task of a registered node.
  abbrev pub AllRegistered : List (PendingTask S J) → Type 0
  AllRegistered tasks = All (λ t. (t.trigger ≡ pull) × (contains t.node_name nodes ≡ true)) tasks

  AllRegistered-snoc :
      (tasks : List (PendingTask S J)) (id name : String)
      → contains name nodes ≡ true
      → AllRegistered tasks
      → AllRegistered (tasks ++ pull_task id name ∷ [])
  AllRegistered-snoc [] id name h a = ((refl, h), tt)
  AllRegistered-snoc (t ∷ tasks) id name h a = (a.0, AllRegistered-snoc tasks id name h a.1)

module _ {S U J : Type 0} (uuid : ℕ → String) (nodes : List String)
    (fallback_map : Map String) where
  fall_back-AllRegistered :
      (outputs : List (TaskOutput U J)) (tasks : List (PendingTask S J)) (handled : List String)
      → AllRegistered nodes tasks
      → AllRegistered nodes (fall_back uuid nodes fallback_map outputs tasks handled).0
  unfolding fall_back
  fall_back-AllRegistered [] tasks handled a = a
  fall_back-AllRegistered (o ∷ outputs) tasks handled a =
      elim (fall_back_step uuid nodes fallback_map o outputs tasks handled) [
        | inl e ↦ rw e (fall_back-AllRegistered outputs tasks handled a)
        | inr (fallback, f, g, e) ↦ rw e (
            fall_back-AllRegistered outputs (tasks ++ pull_task (uuid (length tasks)) fallback ∷ [])
              (add o.node_name handled)
              (AllRegistered-snoc nodes tasks (uuid (length tasks)) fallback
                (may_fall_back-registered nodes handled o.node_name fallback g) a))
      ]

module _ (S : Type 0) {U J : Type 0} (uuid : ℕ → String) (nodes : List String)
    (fallback_map : Map String) where
  -- The fallback never schedules a node that the graph does not have.
  pub schedule_fallback_tasks-AllRegistered :
      (outputs : List (TaskOutput U J))
      → AllRegistered {S = S} {J = J} nodes
          (schedule_fallback_tasks uuid nodes outputs fallback_map).0
  unfolding schedule_fallback_tasks
  schedule_fallback_tasks-AllRegistered outputs =
      fall_back-AllRegistered uuid nodes fallback_map outputs [] [] tt

  -- Two failed nodes that are each other's fallback: only the first to come is replaced, by the
  -- second, so no cycle is scheduled.
  pub mutual_fallback :
      (a b : TaskOutput U J)
      → failed a ≡ true
      → failed b ≡ true
      → a.node_name ≢ b.node_name
      → lookup a.node_name fallback_map ≡ some b.node_name
      → lookup b.node_name fallback_map ≡ some a.node_name
      → contains b.node_name nodes ≡ true
      → schedule_fallback_tasks {S = S} uuid nodes (a ∷ b ∷ []) fallback_map
        ≡ (pull_task (uuid 0) b.node_name ∷ [], a.node_name ∷ [])
  unfolding schedule_fallback_tasks
  mutual_fallback a b f g ne h k r =
      rw (f, h, first_guard nodes a.node_name b.node_name ne r, fall_back)
        (rw (g, k, second_guard nodes a.node_name b.node_name, fall_back))
