-- ===== src/Pregel/Tests.antt =====
-- Runs of the engine's parts at concrete inputs. The state and its updates are numbers, an update
-- adds to the state, and field 0 is a replace field that a positive update sets.
use juncture.Prelude.{
  ℕ, zero, suc, ◌+◌, ◌≤◌, ◌<◌, String, ◌≡◌, refl, true, false, ◌&&◌, Option, none, some, List, [],
  ◌∷◌, arith, ltb, ◌==◌, if◌then◌else◌, length, any, filter, All, Map, lookup, contains_key,
  contains,
}
use mathlib.Core.List.{Permᴰ}
use juncture.Prelude.Result.{Result, ok, err, map_ok}
use juncture.State.Fields.{FieldsChanged, State, has_field}
use juncture.Pregel.Types.{
  JunctureError, multiple_writers, invalid_update, execution, pull, push, PendingTask, pull_task,
  Goto, stay, multiple, send, TaskOutput, RouteResult, many, targets, fixed, conditional, edge,
  TriggerTable,
}
use juncture.Pregel.Versions.{
  FieldVersionTracker, bump_all, version, VersionsSeen, should_activate, mark_consumed,
  compute_triggered_fields,
}
use juncture.Pregel.Versions.Bump
use juncture.Pregel.Versions.Activation.{should_activate-bump_all}
use juncture.Pregel.Schedule.{
  route_outputs, route_output, process_edges, process_edge, process_labels, activate, activate_all,
  push_sends, TriggerToNodes, from_trigger_table, triggered_nodes, compute_next_tasks,
}
use juncture.Pregel.Schedule.Dedup.{dedup_onto, Distinct}
use juncture.Pregel.Schedule.Requests.{pulls, pushes, sent, requests}
use juncture.Pregel.Schedule.Next.{
  compute_next_tasks-pulls, compute_next_tasks-pushes, compute_next_tasks-Distinct,
}
use juncture.Pregel.Schedule.Triggers.{feeds, triggered_nodes-from_trigger_table}
use juncture.Pregel.Writes.{
  apply_writes, writers, precedes, registered, check_fields, sort_outputs, insert_sorted,
  apply_sorted,
}
use juncture.Pregel.Writes.Order.{DistinctPlaces}
use juncture.Pregel.Writes.Conflicts.{Unique, writer_count, apply_writes-conflict}
use juncture.Pregel.Writes.Merge.{apply_writes-perm, apply_writes-err}
use juncture.Pregel.Recovery.{schedule_fallback_tasks, schedule_error_handlers_filtered}
use juncture.Pregel.Recovery.Budget.{failures, recovery_tasks-le}

abbrev uuid : ℕ → String
uuid zero = "t0"
uuid (suc zero) = "t1"
uuid (suc (suc k)) = "t2"

abbrev output : String → Option ℕ → Goto ℕ → TaskOutput ℕ ℕ
output name update goto = record {
  task_id = "t";
  node_name = name;
  command = record { update = update; goto = goto };
  trigger = pull;
  triggered_fields = [];
  error = none;
  circuit_blocked = false;
}

abbrev router : ℕ → Result JunctureError RouteResult
router n = ok (many ("left" ∷ "left" ∷ "__end__" ∷ []))

abbrev table : TriggerTable ℕ
table = record {
  outgoing = ("a", fixed "b" ∷ conditional router (("left", "c") ∷ []) ∷ []) ∷ [];
  incoming = ("b", edge "a" ∷ []) ∷ ("c", edge "a" ∷ []) ∷ [];
}

abbrev names : List String
names = "a" ∷ "b" ∷ "c" ∷ []

abbrev outputs : List (TaskOutput ℕ ℕ)
outputs =
    output "a" none stay
    ∷ output "b" none (multiple ("c" ∷ "a" ∷ []))
    ∷ output "c" none (send (record { node = "b"; state = 7 } ∷ []))
    ∷ []

abbrev mapping : TriggerToNodes
mapping = ("a", "b" ∷ "c" ∷ []) ∷ []

compute_next_tasks-pulls_example :
    map_ok pulls (compute_next_tasks uuid names table mapping 0 outputs)
    ≡ map_ok (dedup_onto []) (requests names table mapping 0 outputs)
compute_next_tasks-pulls_example = compute_next_tasks-pulls uuid names table mapping 0 outputs

-- "a" activates "b" and "c", "b" asks for "c" again and for "a", and "c" sends a state to "b".
abbrev next_tasks : List (PendingTask ℕ ℕ)
next_tasks =
    pull_task "t0" "b"
    ∷ pull_task "t1" "c"
    ∷ pull_task "t2" "a"
    ∷ record {
      id = "t2";
      node_name = "b";
      trigger = push 0;
      state_override = none;
      state_json = some 7;
      triggered_fields = [];
    }
    ∷ []

computed : compute_next_tasks uuid names table mapping 0 outputs ≡ ok next_tasks
unfolding compute_next_tasks route_outputs route_output process_edges process_edge process_labels
    activate activate_all push_sends triggered_nodes targets lookup contains_key
computed = refl

compute_next_tasks-pushes_example : pushes next_tasks ≡ sent outputs
compute_next_tasks-pushes_example =
    compute_next_tasks-pushes uuid names table mapping 0 outputs next_tasks computed

compute_next_tasks-Distinct_example : Distinct (pulls next_tasks)
compute_next_tasks-Distinct_example =
    compute_next_tasks-Distinct uuid names table mapping 0 outputs next_tasks computed

triggered_nodes-from_trigger_table_example :
    contains "c" (triggered_nodes (from_trigger_table table) ("a" ∷ []))
    ≡ feeds table.incoming "a" "c"
triggered_nodes-from_trigger_table_example = triggered_nodes-from_trigger_table table "a" "c"

abbrev ops : State ℕ ℕ
ops = record {
  try_apply = λ s u. if ltb u 100 then (s + u, ok (record { mask = 1 })) else (s, err "too large");
  field_is_set = λ u i. ltb 0 u && i == 0;
  replace_field_indices = 0 ∷ [];
  finish_field = λ s i. s;
  replace_after_finish_field_indices = [];
  consume_field = λ s i. 0;
  field_count = 1;
  reset_ephemeral = λ s. s;
}

abbrev tracker : FieldVersionTracker
tracker = record { versions = 3 ∷ 5 ∷ 4 ∷ []; global_max = 5 }

abbrev registration : Map ℕ
registration = ("a", 0) ∷ ("b", 1) ∷ []

abbrev from_a : TaskOutput ℕ ℕ
from_a = output "a" (some 3) stay

abbrev from_b : TaskOutput ℕ ℕ
from_b = output "b" none stay

abbrev also_b : TaskOutput ℕ ℕ
also_b = output "b" (some 4) stay

abbrev too_large : TaskOutput ℕ ℕ
too_large = output "b" (some 200) stay

places : DistinctPlaces registration (from_a ∷ from_b ∷ [])
unfolding precedes registered lookup
places = ((refl, tt), (tt, tt))

single : Unique ops (from_a ∷ from_b ∷ []) (0 ∷ [])
unfolding writers
single = (omega arith, tt)

apply_writes-perm_example :
    apply_writes ops 10 (from_a ∷ from_b ∷ []) tracker registration
    ≡ apply_writes ops 10 (from_b ∷ from_a ∷ []) tracker registration
apply_writes-perm_example =
    apply_writes-perm ops 10 tracker registration (Permᴰ.swap refl refl) places single

two_writers : ¬ (Unique ops (from_a ∷ also_b ∷ []) (0 ∷ []))
unfolding writers
two_writers h = omega (arith, h.0)

apply_writes-conflict_example :
    (f : ℕ) × (any (λ g. g == f) (0 ∷ []) ≡ true)
    × (1 < writer_count ops (from_a ∷ also_b ∷ []) f)
    × (apply_writes ops 10 (from_a ∷ also_b ∷ []) tracker registration
        ≡ (10, tracker, err (multiple_writers f (writers ops (from_a ∷ also_b ∷ []) f))))
apply_writes-conflict_example =
    apply_writes-conflict ops 10 (from_a ∷ also_b ∷ []) tracker registration two_writers

refused :
    (apply_writes ops 10 (too_large ∷ []) tracker registration).2 ≡ err (invalid_update "too large")
unfolding apply_writes check_fields writers sort_outputs insert_sorted apply_sorted
refused = refl

apply_writes-err_example : (apply_writes ops 10 (too_large ∷ []) tracker registration).1 ≡ tracker
apply_writes-err_example = apply_writes-err ops 10 (too_large ∷ []) tracker registration refused

abbrev second : FieldsChanged
second = record { mask = 2 }

tracker-IsValid : Bump.IsValid tracker
tracker-IsValid = record { below = omega arith; fits = omega arith }

version-bump_all_example :
    (has_field second 1 ≡ true
      → All (λ v. v < version (bump_all tracker second) 1) tracker.versions)
    × (has_field second 1 ≡ false → version (bump_all tracker second) 1 ≡ 5)
version-bump_all_example =
    Bump.version-bump_all tracker second 1 tracker-IsValid (omega arith) (omega arith)

abbrev seen : VersionsSeen
seen = ("a", 0 ∷ 0 ∷ 0 ∷ []) ∷ []

tracked : lookup "a" seen ≡ some (0 ∷ 0 ∷ 0 ∷ [])
unfolding lookup
tracked = refl

should_activate-bump_all_example :
    (should_activate
        (mark_consumed seen "a" tracker.versions)
        "a"
        (0 ∷ 1 ∷ [])
        (bump_all tracker second).versions
      ≡ any (has_field second) (0 ∷ 1 ∷ []))
    × (compute_triggered_fields
          (mark_consumed seen "a" tracker.versions)
          "a"
          (0 ∷ 1 ∷ [])
          (bump_all tracker second).versions
        ≡ filter (has_field second) (0 ∷ 1 ∷ []))
should_activate-bump_all_example =
    should_activate-bump_all tracker second tracker-IsValid (omega arith) seen "a" (0 ∷ 1 ∷ [])
      (0 ∷ 0 ∷ 0 ∷ []) tracked (omega arith, (omega arith, tt))

abbrev broken : String → TaskOutput ℕ ℕ
broken name = record (output name none stay) { error = some (execution "boom") }

abbrev fallbacks : Map String
fallbacks = ("a", "b") ∷ ("b", "a") ∷ []

recovery_tasks-le_example :
    let (tasks, handled) =
      schedule_fallback_tasks {S = ℕ} uuid names (broken "a" ∷ broken "b" ∷ []) fallbacks in
    length tasks
      + length (
          schedule_error_handlers_filtered {S = ℕ} uuid names
            (broken "a" ∷ broken "b" ∷ [])
            (("b", "c") ∷ [])
            handled)
    ≤ failures (broken "a" ∷ broken "b" ∷ [])
recovery_tasks-le_example =
    recovery_tasks-le ℕ uuid names fallbacks (("b", "c") ∷ []) (broken "a" ∷ broken "b" ∷ [])
