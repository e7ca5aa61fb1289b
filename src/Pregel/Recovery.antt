-- ===== src/Pregel/Recovery.antt =====
-- crates/juncture-core/src/pregel/scheduler.rs: the tasks that take over from failed ones, by a
-- fallback node or by an error handler.
-- As in `Schedule`, `uuid k` is the id that `Uuid::new_v4` returns with `k` tasks already pushed,
-- and of `nodes` only the keys are read. The warnings that are logged are left out.
pub mod Fallback
pub mod Budget
use juncture.Prelude.{
  ℕ, String, Bool, true, false, not, ◌&&◌, ◌||◌, Option, none, some, List, [], ◌∷◌, ◌++◌, str_eq,
  if◌then◌else◌, length, Map, lookup, contains, add,
}
use juncture.Pregel.Types.{PendingTask, pull_task, TaskOutput}

-- The channel of the markers in the checkpoint's pending writes.
abbrev pub error_source_node : String
error_source_node = "__error_source_node__"

pub record PendingWrite (J : Type 0) : Type 0 where
  pub task_id : String
  pub channel : String
  pub value : J

unfoldable pub get_error_handler_node : String → Map String → Option String
get_error_handler_node node_name error_handler_map = lookup node_name error_handler_map

abbrev pub is_some {ℓ} : {A : Type ℓ} → Option A → Bool
is_some none = false
is_some (some a) = true

-- An output that failed by itself: it was not blocked by a circuit breaker.
abbrev pub failed : {U J : Type 0} → TaskOutput U J → Bool
failed o = not o.circuit_blocked && is_some o.error

-- The guards of `schedule_fallback_tasks` after the lookup, in their order.
unfoldable pub may_fall_back : List String → List String → String → String → Bool
may_fall_back nodes handled node_name fallback =
    contains fallback nodes && not (str_eq fallback node_name) && not (contains fallback handled)

-- The names in the markers, in order.
unfoldable pub failed_nodes :
    {J : Type 0} → (J → Option String) → List (PendingWrite J) → List String
failed_nodes as_str [] = []
failed_nodes as_str (w ∷ writes) =
    let rest = failed_nodes as_str writes in
    if str_eq w.channel error_source_node
    then elim (as_str w.value) [ none ↦ rest | some name ↦ name ∷ rest ]
    else rest

module _ {S U J : Type 0} (uuid : ℕ → String) (nodes : List String) where
  unfoldable pub fall_back :
      Map String
      → List (TaskOutput U J)
      → List (PendingTask S J)
      → List String
      → List (PendingTask S J) × List String
  unfolding may_fall_back
  fall_back fallback_map [] tasks handled = (tasks, handled)
  fall_back fallback_map (o ∷ outputs) tasks handled = elim (failed o) [
    | false ↦ fall_back fallback_map outputs tasks handled
    | true ↦ elim (lookup o.node_name fallback_map) [
      | none ↦ fall_back fallback_map outputs tasks handled
      | some fallback ↦ elim (may_fall_back nodes handled o.node_name fallback) [
        | false ↦ fall_back fallback_map outputs tasks handled
        | true ↦
            fall_back fallback_map outputs (tasks ++ pull_task (uuid (length tasks)) fallback ∷ [])
              (add o.node_name handled)
      ]
    ]
  ]

  unfoldable pub schedule_fallback_tasks :
      List (TaskOutput U J) → Map String → List (PendingTask S J) × List String
  unfolding fall_back
  schedule_fallback_tasks outputs fallback_map = fall_back fallback_map outputs [] []

  unfoldable pub handle_errors :
      Map String
      → List String
      → List (TaskOutput U J)
      → List (PendingTask S J)
      → List (PendingTask S J)
  unfolding get_error_handler_node
  handle_errors error_handler_map fallback_handled [] tasks = tasks
  handle_errors error_handler_map fallback_handled (o ∷ outputs) tasks =
      elim (failed o && not (contains o.node_name fallback_handled)) [
        | false ↦ handle_errors error_handler_map fallback_handled outputs tasks
        | true ↦ elim (get_error_handler_node o.node_name error_handler_map) [
          | none ↦ handle_errors error_handler_map fallback_handled outputs tasks
          | some handler ↦ elim (contains handler nodes) [
            | false ↦ handle_errors error_handler_map fallback_handled outputs tasks
            | true ↦
                handle_errors error_handler_map fallback_handled outputs
                  (tasks ++ pull_task (uuid (length tasks)) handler ∷ [])
          ]
        ]
      ]

  unfoldable pub schedule_error_handlers_filtered :
      List (TaskOutput U J) → Map String → List String → List (PendingTask S J)
  unfolding handle_errors
  schedule_error_handlers_filtered outputs error_handler_map fallback_handled =
      handle_errors error_handler_map fallback_handled outputs []

module _ {S J : Type 0} (uuid : ℕ → String) (nodes : List String) where
  -- Phase 2; `seen.insert` is made whether or not the node was handled already.
  unfoldable pub recover_nodes :
      Map String
      → List String
      → List String
      → List String
      → List (PendingTask S J)
      → List (PendingTask S J)
  unfolding get_error_handler_node
  recover_nodes error_handler_map already_handled [] seen tasks = tasks
  recover_nodes error_handler_map already_handled (name ∷ names) seen tasks =
      elim (contains name seen || contains name already_handled) [
        | true ↦ recover_nodes error_handler_map already_handled names (add name seen) tasks
        | false ↦ elim (get_error_handler_node name error_handler_map) [
          | none ↦ recover_nodes error_handler_map already_handled names (add name seen) tasks
          | some handler ↦ elim (contains handler nodes) [
            | false ↦ recover_nodes error_handler_map already_handled names (add name seen) tasks
            | true ↦
                recover_nodes error_handler_map already_handled names (add name seen)
                  (tasks ++ pull_task (uuid (length tasks)) handler ∷ [])
          ]
        ]
      ]

  unfoldable pub schedule_error_handlers_from_writes :
      (J → Option String)
      → List (PendingWrite J)
      → Map String
      → List String
      → List (PendingTask S J)
  unfolding failed_nodes recover_nodes
  schedule_error_handlers_from_writes as_str pending_writes error_handler_map already_handled =
      recover_nodes error_handler_map already_handled (failed_nodes as_str pending_writes) [] []
