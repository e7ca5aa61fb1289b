-- ===== src/Pregel/Snapshots.antt =====
-- crates/juncture-core/src/pregel/loop_.rs and checkpoint.rs: the counters of writes since the last
-- full snapshot, and what else a superstep does to the channels. `field_name` stands for the text
-- `field_{field_idx}`, and `delta_channel_specs` for the user's state type.
pub mod Counting
use juncture.Prelude.{
  ℕ, zero, suc, ◌+◌, min, String, Bool, true, false, Option, none, some, List, [], ◌∷◌, leb, ◌==◌,
  if◌then◌else◌, is_empty, any, Map, lookup, insert,
}
use juncture.State.Fields.{FieldsChanged, has_field, State}
use juncture.Pregel.Versions.{saturating_add}

pub record DeltaCounters : Type 0 where
  pub updates : ℕ
  pub supersteps : ℕ

abbrev pub new_counters : DeltaCounters
new_counters = record { updates = 0; supersteps = 0 }

unfoldable pub exceeds_frequency : DeltaCounters → ℕ → Bool
exceeds_frequency c snapshot_frequency =
    if snapshot_frequency == 0 then true else leb snapshot_frequency c.updates

-- The entry of a field after a superstep, from the entry before and whether the field changed.
abbrev pub counted : Bool → Option DeltaCounters → DeltaCounters
counted changed none = record { updates = if changed then 1 else 0; supersteps = 1 }
counted changed (some c) = record {
  updates = if changed then saturating_add c.updates 1 else c.updates;
  supersteps = saturating_add c.supersteps 1;
}

module _ (field_name : ℕ → String) where
  -- The loop over the fields: `n` are left, and the next one is `field_idx`.
  unfoldable pub count_fields : FieldsChanged → ℕ → ℕ → Map DeltaCounters → Map DeltaCounters
  count_fields changed zero field_idx counters = counters
  count_fields changed (suc n) field_idx counters = count_fields changed n (field_idx + 1) (
      insert (field_name field_idx)
        (counted (has_field changed field_idx) (lookup (field_name field_idx) counters)) counters)

  unfoldable pub update_delta_counters :
      ℕ → ℕ → FieldsChanged → Map DeltaCounters → Map DeltaCounters
  unfolding count_fields
  update_delta_counters field_names_len field_versions_len changed counters =
      count_fields changed (min field_names_len field_versions_len) 0 counters

  unfoldable pub exceeds : Map DeltaCounters → ℕ × ℕ → Bool
  unfolding exceeds_frequency
  exceeds counters (field_idx, frequency) = elim (lookup (field_name field_idx) counters) [
    | none ↦ false
    | some c ↦ exceeds_frequency c frequency
  ]

  unfoldable pub should_take_full_snapshot : List (ℕ × ℕ) → Map DeltaCounters → Bool
  unfolding exceeds
  should_take_full_snapshot specs counters =
      if is_empty specs then true else any (exceeds counters) specs

abbrev pub reset_delta_counters : Map DeltaCounters → Map DeltaCounters
reset_delta_counters counters = []

module _ {S U : Type 0} (ops : State S U) where
  abbrev pub finish_fields : List ℕ → S → S
  finish_fields [] state = state
  finish_fields (field_idx ∷ fields) state = finish_fields fields (ops.finish_field state field_idx)

  -- The state and `channels_finished`.
  unfoldable pub finish_all_channels : S × Bool → S × Bool
  finish_all_channels (state, channels_finished) =
      if channels_finished
      then (state, channels_finished)
      else (finish_fields ops.replace_after_finish_field_indices state, true)

  -- The loop over the fields: `n` are left, and the next one is `field_idx`.
  unfoldable pub consume_changed : FieldsChanged → ℕ → ℕ → S → S
  consume_changed changed zero field_idx state = state
  consume_changed changed (suc n) field_idx state =
      consume_changed changed n (field_idx + 1)
        (if has_field changed field_idx then ops.consume_field state field_idx else state)

  unfoldable pub consume_triggered : FieldsChanged → S → S
  unfolding consume_changed
  consume_triggered changed state = consume_changed changed ops.field_count 0 state
