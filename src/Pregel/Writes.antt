-- ===== src/Pregel/Writes.antt =====
-- crates/juncture-core/src/pregel/scheduler.rs, `apply_writes`: the updates of a superstep are
-- merged into the state in an order that does not depend on which task finished first.
pub mod Order
pub mod Conflicts
pub mod Merge
use juncture.Prelude.{
  ℕ, ◌-◌, ◌^◌, String, Bool, true, false, none, some, List, [], ◌∷◌, ltb, leb, if◌then◌else◌,
  length, Map, lookup,
}
use juncture.Prelude.Result.{Result, ok, err}
use juncture.State.Fields.{FieldsChanged, no_fields, has_field, merge, State}
use juncture.Pregel.Types.{
  JunctureError, multiple_writers, invalid_update, TaskTrigger, pull, push, TaskOutput,
}
use juncture.Pregel.Versions.{FieldVersionTracker, bump_all}

abbrev pub usize_max : ℕ
usize_max = 2 ^ 64 - 1

-- The comparison given to `sort_by`, as the test that its first argument does not come later.
unfoldable pub before : TaskTrigger → TaskTrigger → ℕ → ℕ → Bool
before pull pull ra rb = leb ra rb
before pull (push j) ra rb = true
before (push i) pull ra rb = false
before (push i) (push j) ra rb = leb i j

module _ {U J : Type 0} (node_registration : Map ℕ) where
  unfoldable pub registered : TaskOutput U J → ℕ
  registered o = elim (lookup o.node_name node_registration) [ none ↦ usize_max | some n ↦ n ]

  unfoldable pub precedes : TaskOutput U J → TaskOutput U J → Bool
  unfolding before
  precedes a b = before a.trigger b.trigger (registered a) (registered b)

  -- `sort_by` is the standard library's stable sort.
  unfoldable pub insert_sorted : TaskOutput U J → List (TaskOutput U J) → List (TaskOutput U J)
  insert_sorted a [] = a ∷ []
  insert_sorted a (b ∷ bs) =
      let later = b ∷ insert_sorted a bs in if precedes a b then a ∷ b ∷ bs else later

  unfoldable pub sort_outputs : List (TaskOutput U J) → List (TaskOutput U J)
  sort_outputs [] = []
  sort_outputs (a ∷ outputs) = insert_sorted a (sort_outputs outputs)

module _ {S U J : Type 0} (ops : State S U) where
  unfoldable pub sets_field : ℕ → TaskOutput U J → Bool
  sets_field field_idx o = elim o.command.update [
    | none ↦ false
    | some u ↦ ops.field_is_set u field_idx
  ]

  unfoldable pub writers : List (TaskOutput U J) → ℕ → List String
  unfolding sets_field
  writers [] field_idx = []
  writers (o ∷ outputs) field_idx =
      let rest = writers outputs field_idx in
      if sets_field field_idx o then o.node_name ∷ rest else rest

  -- The loop over the replace fields.
  unfoldable pub check_fields : List (TaskOutput U J) → List ℕ → Result JunctureError (Unit {0})
  check_fields outputs [] = ok tt
  check_fields outputs (field_idx ∷ fields) =
      let rest = check_fields outputs fields in
      if ltb 1 (length (writers outputs field_idx))
      then err (multiple_writers field_idx (writers outputs field_idx))
      else rest

  unfoldable pub check_replace_conflicts_from_state :
      List (TaskOutput U J) → Result JunctureError (Unit {0})
  check_replace_conflicts_from_state outputs = check_fields outputs ops.replace_field_indices

  -- `check_replace_conflicts`, which is given the task outputs of a superstep and the fields.
  unfoldable pub check_replace_conflicts :
      List (TaskOutput U J) → List ℕ → Result JunctureError (Unit {0})
  check_replace_conflicts outputs replace_fields = check_fields outputs replace_fields

  -- The loop over the sorted outputs; `?` leaves it with the state as it is by then.
  unfoldable pub apply_sorted :
      List (TaskOutput U J) → S → FieldsChanged → S × Result JunctureError FieldsChanged
  apply_sorted [] state total = (state, ok total)
  apply_sorted (o ∷ outputs) state total = elim o.command.update [
    | none ↦ apply_sorted outputs state total
    | some u ↦ elim (ops.try_apply state u).1 [
      | ok changed ↦ apply_sorted outputs (ops.try_apply state u).0 (merge total changed)
      | err message ↦ ((ops.try_apply state u).0, err (invalid_update message))
    ]
  ]

  -- The state, the versions and the result after `apply_writes`.
  unfoldable pub apply_writes :
      S
      → List (TaskOutput U J)
      → FieldVersionTracker
      → Map ℕ
      → S × FieldVersionTracker × Result JunctureError FieldsChanged
  unfolding check_replace_conflicts_from_state
  apply_writes state outputs field_versions node_registration =
      elim (check_replace_conflicts_from_state outputs) [
        | err e ↦ (state, field_versions, err e)
        | ok _ ↦
            let done = apply_sorted (sort_outputs node_registration outputs) state no_fields in
            elim done.1 [
              | err e ↦ (done.0, field_versions, err e)
              | ok total ↦ (done.0, bump_all field_versions total, ok total)
            ]
      ]

-- `consume_triggered_channels` of the scheduler.
unfoldable pub consume_triggered_channels : {S U : Type 0} → State S U → S → List ℕ → S
consume_triggered_channels ops state [] = state
consume_triggered_channels ops state (field_idx ∷ fields) =
    consume_triggered_channels ops (ops.consume_field state field_idx) fields
