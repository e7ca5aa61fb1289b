-- ===== src/Pregel/Versions/Activation.antt =====
-- When a node is activated: `should_activate`, `mark_consumed` and `compute_triggered_fields`.
use juncture.Prelude.{
  ℕ, ◌+◌, ◌≤◌, ◌<◌, String, ◌≡◌, refl, inl, inr, Bool, some, List, [], ◌∷◌, arith, eq_refl, ltb,
  lt→ltb, Bool-cases, length, get_or, any, filter, All, lookup, insert, lookup-insert,
}
use juncture.State.Fields.{FieldsChanged, has_field}
use juncture.Pregel.Versions.{
  u64_max, FieldVersionTracker, bump_all, VersionsSeen, should_activate, mark_consumed,
  compute_triggered_fields,
}
use juncture.Pregel.Versions.Bump.{IsValid, get_or-le, version-bump_all_max}

-- The version of the field is above the one that was seen.
abbrev newer : List ℕ → List ℕ → ℕ → Bool
newer seen current field_idx = ltb (get_or seen field_idx 0) (get_or current field_idx 0)

mark_consumed-tracked :
    (seen : VersionsSeen) (node : String) (current versions : List ℕ)
    → lookup node seen ≡ some versions
    → mark_consumed seen node current ≡ insert node current seen
unfolding mark_consumed
mark_consumed-tracked seen node current versions h = rw (h, mark_consumed)

lookup-mark_consumed :
    (seen : VersionsSeen) (node : String) (current versions : List ℕ)
    → lookup node seen ≡ some versions
    → lookup node (mark_consumed seen node current) ≡ some current
lookup-mark_consumed seen node current versions h =
    rw (mark_consumed-tracked seen node current versions h, lookup-insert, eq_refl node)

any_ext : (p q : ℕ → Bool) (xs : List ℕ) → All (λ x. p x ≡ q x) xs → any p xs ≡ any q xs
any_ext p q [] h = refl
any_ext p q (x ∷ xs) h = rw (h.0, any_ext p q xs h.1)

filter_ext : (p q : ℕ → Bool) (xs : List ℕ) → All (λ x. p x ≡ q x) xs → filter p xs ≡ filter q xs
filter_ext p q [] h = refl
filter_ext p q (x ∷ xs) h = rw (h.0, filter_ext p q xs h.1)

module _ (t : FieldVersionTracker) (c : FieldsChanged) (valid : IsValid t)
    (room : t.global_max + length t.versions ≤ u64_max) where
  newer-bump_all :
      (i : ℕ) → i < length t.versions → newer t.versions (bump_all t c).versions i ≡ has_field c i
  newer-bump_all i h = elim (Bool-cases (has_field c i)) [
    | inl e ↦ rw e (
        lt→ltb _ _ (
          omega (
            arith,
            (version-bump_all_max t c i h room).0 e,
            get_or-le t.versions i t.global_max valid.below,
          )))
    | inr e ↦ rw e (ground (arith, (version-bump_all_max t c i h room).1 e))
  ]

  newer-bump_all_each :
      (fields : List ℕ)
      → All (λ i. i < length t.versions) fields
      → All (λ i. newer t.versions (bump_all t c).versions i ≡ has_field c i) fields
  newer-bump_all_each [] h = tt
  newer-bump_all_each (i ∷ fields) h = (newer-bump_all i h.0, newer-bump_all_each fields h.1)

  -- After a tracked node has consumed the current versions, the next changes activate it exactly
  -- where one of its trigger fields changed, and the fields that are reported as its triggers are
  -- those that changed. The tracker is valid, the trigger fields are in range, and the version
  -- counter has room for one more version per field.
  pub should_activate-bump_all :
      (seen : VersionsSeen) (node : String) (fields versions : List ℕ)
      → lookup node seen ≡ some versions
      → All (λ i. i < length t.versions) fields
      → (should_activate (mark_consumed seen node t.versions) node fields (bump_all t c).versions
          ≡ any (has_field c) fields)
        × (compute_triggered_fields
              (mark_consumed seen node t.versions)
              node
              fields
              (bump_all t c).versions
            ≡ filter (has_field c) fields)
  unfolding should_activate compute_triggered_fields
  should_activate-bump_all seen node fields versions h inside =
      let consumed = lookup-mark_consumed seen node t.versions versions h in
      let same = newer-bump_all_each fields inside in
      (
        rw (consumed, should_activate)
            (any_ext (newer t.versions (bump_all t c).versions) (has_field c) fields same),
        rw (consumed, compute_triggered_fields)
            (filter_ext (newer t.versions (bump_all t c).versions) (has_field c) fields same),
      )
