-- ===== src/Pregel/Writes/Merge.antt =====
-- What `apply_writes` as a whole promises.
use juncture.Prelude.{ℕ, ◌≡◌, sym, ap, ◌∙◌, List, arith, Map}
use mathlib.Core.List.{Permᴰ}
use juncture.Prelude.Result.{Result, ok, err}
use juncture.State.Fields.{FieldsChanged, no_fields, State}
use juncture.Pregel.Types.{JunctureError, TaskOutput}
use juncture.Pregel.Versions.{FieldVersionTracker, bump_all}
use juncture.Pregel.Writes.{sort_outputs, apply_sorted, apply_writes}
use juncture.Pregel.Writes.Order.{DistinctPlaces, sort_outputs-perm}
use juncture.Pregel.Writes.Conflicts.{Unique, Unique-perm, check_fields-ok}

module _ {S U J : Type 0} (ops : State S U) where
  apply_writes-Unique :
      (state : S) (outputs : List (TaskOutput U J)) (versions : FieldVersionTracker)
      (registration : Map ℕ)
      → Unique ops outputs ops.replace_field_indices
      → let done = apply_sorted ops (sort_outputs registration outputs) state no_fields in
        apply_writes ops state outputs versions registration ≡ elim done.1 [
          | err e ↦ (done.0, versions, err e)
          | ok total ↦ (done.0, bump_all versions total, ok total)
        ]
  unfolding apply_writes
  apply_writes-Unique state outputs versions registration h =
      rw (check_fields-ok ops outputs ops.replace_field_indices h, apply_writes)

  -- Without a conflict, and with distinct places in the merge order, the state, the versions and
  -- the result do not depend on the order in which the tasks finished.
  pub apply_writes-perm :
      (state : S) {xs ys : List (TaskOutput U J)} (versions : FieldVersionTracker)
      (registration : Map ℕ)
      → Permᴰ xs ys
      → DistinctPlaces registration xs
      → Unique ops xs ops.replace_field_indices
      → apply_writes ops state xs versions registration
        ≡ apply_writes ops state ys versions registration
  apply_writes-perm state {xs} {ys} versions registration p d u =
      apply_writes-Unique state xs versions registration u
      ∙ ap
          (λ (l : List (TaskOutput U J)).
            let done = apply_sorted ops l state no_fields in
            let out : S × FieldVersionTracker × Result JunctureError FieldsChanged = elim done.1 [
              | err e ↦ (done.0, versions, err e)
              | ok total ↦ (done.0, bump_all versions total, ok total)
            ] in
            out)
          (sort_outputs-perm registration p d)
      ∙ sym (
          apply_writes-Unique state ys versions registration
            (Unique-perm ops ops.replace_field_indices p u))

  -- On any error, of a conflict or of an update that cannot be applied, the versions stay as they are.
  pub apply_writes-err :
      (state : S) (outputs : List (TaskOutput U J)) (versions : FieldVersionTracker)
      (registration : Map ℕ) {e : JunctureError}
      → (apply_writes ops state outputs versions registration).2 ≡ err e
      → (apply_writes ops state outputs versions registration).1 ≡ versions
  unfolding apply_writes
  apply_writes-err state outputs versions registration h = ground arith
