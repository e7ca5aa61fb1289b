-- ===== src/Pregel/Versions.antt =====
-- crates/juncture-core/src/pregel/scheduler.rs, `FieldVersionTracker` and `VersionsSeen`: a version
-- number per field, and for each node the versions that it has consumed.
-- Reading a version out of range panics in the program; here it reads 0, and the theorems take
-- the index in range.
pub mod Bump
pub mod Activation
use juncture.Prelude.{
  ℕ, zero, suc, ◌+◌, ◌-◌, ◌^◌, min, String, Bool, true, Option, none, some, List, [], ◌∷◌, ltb, leb,
  if◌then◌else◌, length, get_or, set, replicate, any, filter, Map, lookup, insert,
}
use juncture.State.Fields.{FieldsChanged, has_field}

abbrev pub u64_max : ℕ
u64_max = 2 ^ 64 - 1

abbrev pub saturating_add : ℕ → ℕ → ℕ
saturating_add a b = min (a + b) u64_max

pub record FieldVersionTracker : Type 0 where
  pub versions : List ℕ
  pub global_max : ℕ

-- More than 64 fields are refused by an assertion.
unfoldable pub new_tracker : ℕ → Option FieldVersionTracker
new_tracker num_fields =
    if leb num_fields 64
    then some (record { versions = replicate num_fields 0; global_max = 0 })
    else none

unfoldable pub bump : FieldVersionTracker → ℕ → FieldVersionTracker
bump t field_idx =
    let next = saturating_add t.global_max 1 in
    record { versions = set t.versions field_idx next; global_max = next }

-- The loop over `0..versions.len()`: `n` fields are left, and the next one is `field_idx`.
unfoldable pub bump_from : FieldsChanged → ℕ → ℕ → FieldVersionTracker → FieldVersionTracker
bump_from changed zero field_idx t = t
bump_from changed (suc n) field_idx t =
    bump_from changed n (field_idx + 1)
      (if has_field changed field_idx then bump t field_idx else t)

unfoldable pub bump_all : FieldVersionTracker → FieldsChanged → FieldVersionTracker
bump_all t changed = bump_from changed (length t.versions) 0 t

abbrev pub version : FieldVersionTracker → ℕ → ℕ
version t field_idx = get_or t.versions field_idx 0

-- `seen`: for each node, the versions at its last run.
abbrev pub VersionsSeen : Type 0
VersionsSeen = Map (List ℕ)

unfoldable pub new_seen : List String → ℕ → VersionsSeen
new_seen [] num_fields = []
new_seen (name ∷ names) num_fields =
    insert name (replicate num_fields 0) (new_seen names num_fields)

-- A node that is not tracked is always activated.
unfoldable pub should_activate : VersionsSeen → String → List ℕ → List ℕ → Bool
should_activate seen node_name trigger_fields current = elim (lookup node_name seen) [
  | none ↦ true
  | some seen_versions ↦
      any (λ field_idx. ltb (get_or seen_versions field_idx 0) (get_or current field_idx 0))
        trigger_fields
]

-- `copy_from_slice` panics on another length; the versions of one graph have one length.
unfoldable pub mark_consumed : VersionsSeen → String → List ℕ → VersionsSeen
mark_consumed seen node_name current = elim (lookup node_name seen) [
  | none ↦ seen
  | some _ ↦ insert node_name current seen
]

unfoldable pub get_seen : VersionsSeen → String → List ℕ
get_seen seen node_name = elim (lookup node_name seen) [ none ↦ [] | some v ↦ v ]

unfoldable pub compute_triggered_fields : VersionsSeen → String → List ℕ → List ℕ → List ℕ
compute_triggered_fields seen node_name trigger_fields current = elim (lookup node_name seen) [
  | none ↦ trigger_fields
  | some seen_versions ↦
      filter (λ field_idx. ltb (get_or seen_versions field_idx 0) (get_or current field_idx 0))
        trigger_fields
]
