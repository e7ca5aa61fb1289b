-- ===== src/Pregel/Writes/Conflicts.antt =====
-- The check that no replace field has two writers.
use juncture.Prelude.{
  ℕ, ◌≤◌, ◌<◌, ◌≡◌, refl, ap, ◌∙◌, ◌⊎◌, inl, inr, true, List, [], ◌∷◌, arith, ltb, ◌==◌, ltb→lt,
  Bool-cases, length, any, All, Map,
}
use mathlib.Core.List.{Permᴰ}
use juncture.Prelude.Result.{ok, err}
use juncture.State.Fields.{State}
use juncture.Pregel.Types.{multiple_writers, TaskOutput}
use juncture.Pregel.Versions.{FieldVersionTracker}
use juncture.Pregel.Writes.{sets_field, writers, check_fields, apply_writes}

module _ {S U J : Type 0} (ops : State S U) where
  -- How many outputs set the field.
  abbrev pub writer_count : List (TaskOutput U J) → ℕ → ℕ
  writer_count outputs field_idx = length (writers ops outputs field_idx)

  abbrev pub Unique : List (TaskOutput U J) → List ℕ → Type 0
  Unique outputs fields = All (λ f. writer_count outputs f ≤ 1) fields

  pub check_fields-ok :
      (outputs : List (TaskOutput U J)) (fields : List ℕ)
      → Unique outputs fields
      → check_fields ops outputs fields ≡ ok tt
  unfolding check_fields
  check_fields-ok outputs [] h = refl
  check_fields-ok outputs (f ∷ fields) h = ground (arith, check_fields-ok outputs fields)

  -- The check passes, or it names a replace field and all of its writers, of which there are two
  -- at least.
  pub check_fields-cases :
      (outputs : List (TaskOutput U J)) (fields : List ℕ)
      → ((check_fields ops outputs fields ≡ ok tt) × Unique outputs fields)
        ⊎ ((f : ℕ) × (any (λ g. g == f) fields ≡ true)
            × (1 < writer_count outputs f)
            × (check_fields ops outputs fields ≡ err (multiple_writers f (writers ops outputs f))))
  unfolding check_fields
  check_fields-cases outputs [] = inl (refl, tt)
  check_fields-cases outputs (f ∷ fields) = elim (Bool-cases (ltb 1 (writer_count outputs f))) [
    | inl e ↦ inr (f, ground arith, ltb→lt _ _ e, rw (e, check_fields))
    | inr e ↦ elim (check_fields-cases outputs fields) [
      | inl (p, u) ↦ inl (rw (e, check_fields) p, (ground arith, u))
      | inr (g, m, l, p) ↦ inr (g, ground (arith, m), l, rw (e, check_fields) p)
    ]
  ]

  -- Where some replace field is set by two outputs, nothing is written: the state and the versions
  -- stay as they are, and the error names such a replace field with all of its
  -- writers.
  pub apply_writes-conflict :
      (state : S) (outputs : List (TaskOutput U J)) (versions : FieldVersionTracker)
      (registration : Map ℕ)
      → ¬ (Unique outputs ops.replace_field_indices)
      → (f : ℕ) × (any (λ g. g == f) ops.replace_field_indices ≡ true)
        × (1 < writer_count outputs f)
        × (apply_writes ops state outputs versions registration
            ≡ (state, versions, err (multiple_writers f (writers ops outputs f))))
  unfolding apply_writes
  apply_writes-conflict state outputs versions registration h =
      elim (check_fields-cases outputs ops.replace_field_indices) [
        | inl (p, u) ↦ absurd (h u)
        | inr (f, m, l, p) ↦ (f, m, l, rw (p, apply_writes))
      ]

  writer_count-perm :
      {xs ys : List (TaskOutput U J)} (f : ℕ) → Permᴰ xs ys → writer_count xs f ≡ writer_count ys f
  unfolding writers
  writer_count-perm f Permᴰ.nil = refl
  writer_count-perm f (Permᴰ.cons {a} {b} e p) =
      ground (arith, writer_count-perm f p, ap (sets_field ops f) e)
  writer_count-perm f (Permᴰ.swap {a} {b} {a'} {b'} e d) =
      ground (arith, ap (sets_field ops f) e, ap (sets_field ops f) d)
  writer_count-perm f (Permᴰ.trans p q) = writer_count-perm f p ∙ writer_count-perm f q

  pub Unique-perm :
      {xs ys : List (TaskOutput U J)} (fields : List ℕ)
      → Permᴰ xs ys
      → Unique xs fields
      → Unique ys fields
  Unique-perm [] p h = tt
  Unique-perm (f ∷ fields) p h =
      (omega (arith, writer_count-perm f p, h.0), Unique-perm fields p h.1)
