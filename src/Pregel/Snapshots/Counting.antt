-- ===== src/Pregel/Snapshots/Counting.antt =====
-- The counters against the supersteps that they count.
use juncture.Prelude.{
  ℕ, zero, suc, ◌+◌, ◌≤◌, ◌<◌, min, String, ◌≡◌, refl, sym, ap, ◌∙◌, inl, inr, Bool, ◌&&◌, ◌||◌,
  Option, none, some, List, [], ◌∷◌, arith, str_eq, eq_iff, ltb, leb, ◌==◌, if◌then◌else◌, ==_iff,
  Bool-cases, length, is_empty, any, All, Map, lookup, insert, lookup-insert, lookup-nil,
}
use juncture.State.Fields.{FieldsChanged, has_field}
use juncture.Pregel.Versions.{u64_max}
use juncture.Pregel.Snapshots.{
  DeltaCounters, counted, count_fields, update_delta_counters, exceeds, should_take_full_snapshot,
  reset_delta_counters,
}

-- How many supersteps changed a field.
abbrev pub changes : ℕ → List FieldsChanged → ℕ
changes i [] = 0
changes i (c ∷ cs) = if has_field c i then suc (changes i cs) else changes i cs

-- A field's entry after some supersteps.
counted_all : ℕ → List FieldsChanged → Option DeltaCounters → Option DeltaCounters
counted_all j [] o = o
counted_all j (c ∷ cs) o = counted_all j cs (some (counted (has_field c j) o))

-- The counters after some supersteps.
module _ (field_name : ℕ → String) where
  unfoldable pub superstep_counters :
      ℕ → ℕ → List FieldsChanged → Map DeltaCounters → Map DeltaCounters
  superstep_counters names versions [] counters = counters
  superstep_counters names versions (c ∷ cs) counters =
      superstep_counters names versions cs
        (update_delta_counters field_name names versions c counters)

module _ (field_name : ℕ → String)
    (injective : (i j : ℕ) → field_name i ≡ field_name j → i ≡ j) where
  str_eq-field_name : (i j : ℕ) → str_eq (field_name i) (field_name j) ≡ (i == j)
  str_eq-field_name i j = elim (Bool-cases (str_eq (field_name i) (field_name j))) [
    | inl e ↦
        let same : i ≡ j = injective i j ((eq_iff (field_name i) (field_name j)).0 e) in
        ground arith
    | inr e ↦ elim (Bool-cases (i == j)) [
      | inl q ↦
          let same : field_name i ≡ field_name j = ap field_name ((==_iff i j).0 q) in
          ground (arith, eq_iff (field_name i) (field_name j))
      | inr q ↦ e ∙ sym q
    ]
  ]

  -- A field's entry after the loop over `n` fields from `k` on.
  lookup-count_fields :
      (c : FieldsChanged) (n k j : ℕ) (counters : Map DeltaCounters)
      → lookup (field_name j) (count_fields field_name c n k counters) ≡ (
          if leb k j && ltb j (k + n)
          then some (counted (has_field c j) (lookup (field_name j) counters))
          else lookup (field_name j) counters)
  unfolding count_fields
  lookup-count_fields c zero k j counters = ground arith
  lookup-count_fields c (suc n) k j counters =
      let entry = counted (has_field c k) (lookup (field_name k) counters) in
      lookup-count_fields c n (k + 1) j (insert (field_name k) entry counters)
      ∙ elim (Bool-cases (k == j)) [
        | inl q ↦
            let same : k ≡ j = (==_iff k j).0 q in
            let given : entry ≡ counted (has_field c j) (lookup (field_name j) counters) =
              ap (λ (i : ℕ). counted (has_field c i) (lookup (field_name i) counters)) same in
            ground (
              arith,
              str_eq-field_name k j,
              lookup-insert (field_name k) (field_name j) entry counters,
              given,
            )
        | inr q ↦ ground (
          arith,
          str_eq-field_name k j,
          lookup-insert (field_name k) (field_name j) entry counters,
        )
      ]

  lookup-superstep_counters :
      (names versions j : ℕ) (cs : List FieldsChanged) (counters : Map DeltaCounters)
      → j < min names versions
      → lookup (field_name j) (superstep_counters field_name names versions cs counters)
        ≡ counted_all j cs (lookup (field_name j) counters)
  unfolding superstep_counters counted_all update_delta_counters
  lookup-superstep_counters names versions j [] counters h = refl
  lookup-superstep_counters names versions j (c ∷ cs) counters h =
      lookup-superstep_counters names versions j cs
        (count_fields field_name c (min names versions) 0 counters) h
      ∙ ap (counted_all j cs)
          (lookup-count_fields c (min names versions) 0 j counters ∙ ground arith)

  counted_all-some :
      (j : ℕ) (cs : List FieldsChanged) (e : DeltaCounters)
      → e.updates + length cs ≤ u64_max
      → (d : DeltaCounters) × (counted_all j cs (some e) ≡ some d)
        × (d.updates ≡ e.updates + changes j cs)
  unfolding counted_all
  counted_all-some j [] e h = (e, refl, omega arith)
  counted_all-some j (c ∷ cs) e h =
      let (d, p, q) = counted_all-some j cs (counted (has_field c j) (some e)) (ground arith) in
      (d, p, ground (arith, q))

  exceeds-superstep_counters :
      (names versions : ℕ) (c : FieldsChanged) (cs : List FieldsChanged) (spec : ℕ × ℕ)
      → length (c ∷ cs) ≤ u64_max
      → spec.0 < min names versions
      → exceeds field_name (superstep_counters field_name names versions (c ∷ cs) []) spec
        ≡ leb spec.1 (changes spec.0 (c ∷ cs))
  unfolding exceeds counted_all
  exceeds-superstep_counters names versions c cs (j, frequency) l h =
      let looked = lookup-superstep_counters names versions j (c ∷ cs) [] h in
      let nothing = lookup-nil {V = DeltaCounters} (field_name j) in
      let (d, p, q) = counted_all-some j cs (counted (has_field c j) none) (ground arith) in
      let entry : lookup (field_name j) (superstep_counters field_name names versions (c ∷ cs) [])
          ≡ some d =
        looked ∙ ap (λ o. counted_all j cs (some (counted (has_field c j) o))) nothing ∙ p in
      rw (entry, exceeds) (ground (arith, q))

  any-cong :
      {A : Type 0} (p q : A → Bool) (xs : List A) → All (λ x. p x ≡ q x) xs → any p xs ≡ any q xs
  any-cong p q [] h = refl
  any-cong p q (x ∷ xs) h = rw (h.0, any-cong p q xs h.1)

  -- Where fields have distinct names, after at least one superstep since the counters were reset, and
  -- fewer than 2^64, a full snapshot is due exactly when there are no delta fields, or some delta field, all of them tracked, has
  -- changed in at least as many supersteps as its frequency.
  pub should_take_full_snapshot-changes :
      (names versions : ℕ) (c : FieldsChanged) (cs : List FieldsChanged) (specs : List (ℕ × ℕ))
      (old : Map DeltaCounters)
      → length (c ∷ cs) ≤ u64_max
      → All (λ (spec : ℕ × ℕ). spec.0 < min names versions) specs
      → should_take_full_snapshot field_name specs
          (superstep_counters field_name names versions (c ∷ cs) (reset_delta_counters old))
        ≡ (is_empty specs || any (λ (spec : ℕ × ℕ). leb spec.1 (changes spec.0 (c ∷ cs))) specs)
  unfolding should_take_full_snapshot
  should_take_full_snapshot-changes names versions c cs [] old l h = refl
  should_take_full_snapshot-changes names versions c cs (s ∷ specs) old l h =
      any-cong (exceeds field_name (superstep_counters field_name names versions (c ∷ cs) []))
        (λ (spec : ℕ × ℕ). leb spec.1 (changes spec.0 (c ∷ cs))) (s ∷ specs) (each (s ∷ specs) h)
    where
      each :
          (specs : List (ℕ × ℕ))
          → All (λ (spec : ℕ × ℕ). spec.0 < min names versions) specs
          → All
              (λ (spec : ℕ × ℕ).
                exceeds field_name (superstep_counters field_name names versions (c ∷ cs) []) spec
                ≡ leb spec.1 (changes spec.0 (c ∷ cs)))
              specs
      each [] a = tt
      each (s ∷ rest) a = (exceeds-superstep_counters names versions c cs s l a.0, each rest a.1)
