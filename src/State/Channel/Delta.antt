-- ===== src/State/Channel/Delta.antt =====
-- `DeltaChannel`: writes are logged, and a full snapshot is taken once in a while.
use juncture.Prelude.{
  ℕ, ◌+◌, ◌%◌, ◌^◌, ◌<◌, max, ◌≡◌, refl, sym, ap, ◌∙◌, inl, inr, Bool, true, false, Option, none,
  some, List, [], ◌∷◌, ◌++◌, arith, leb, if◌then◌else◌, Option-cases, is_empty, All,
}
use mathlib.Core.List.{append-nil, append_assoc}
use juncture.State.Reducer.{Reducer}

pub record DeltaChannel (T : Type 0) : Type 0 where
  pub value : T
  pub snapshot_frequency : ℕ
  pub update_count_since_snapshot : ℕ

abbrev pub new_delta : {T : Type 0} → T → ℕ → DeltaChannel T
new_delta value snapshot_frequency = record {
  value = value;
  snapshot_frequency = max snapshot_frequency 1;
  update_count_since_snapshot = 0;
}

module _ {T : Type 0} where
  unfoldable pub should_snapshot : DeltaChannel T → Bool
  should_snapshot c = leb c.snapshot_frequency c.update_count_since_snapshot

  unfoldable pub finish : DeltaChannel T → DeltaChannel T
  finish c = record c { update_count_since_snapshot = c.snapshot_frequency }

  unfoldable pub update : Reducer T → DeltaChannel T → List T → Option (DeltaChannel T × Bool)
  update r c [] = some (c, false)
  update r c (v ∷ rest) = elim (r.reduce c.value (v ∷ rest)) [
    | none ↦ none
    | some next ↦ some (
      record c {
        value = next;
        update_count_since_snapshot = (c.update_count_since_snapshot + 1) % 2 ^ 64;
      },
      true,
    )
  ]

  -- The loop of `replay_writes`: `overwrite_of` is the inner value of a write whose JSON form has
  -- the key `__overwrite__` and parses. The result is the base and the writes after it.
  unfoldable pub find_base : (T → Option T) → T → List T → List T → T × List T
  find_base overwrite_of base pending [] = (base, pending)
  find_base overwrite_of base pending (v ∷ rest) = elim (overwrite_of v) [
    | none ↦ find_base overwrite_of base (pending ++ v ∷ []) rest
    | some inner ↦ find_base overwrite_of inner [] rest
  ]

  unfoldable pub replay_writes :
      (T → Option T) → Reducer T → DeltaChannel T → List T → Option (DeltaChannel T)
  unfolding find_base
  replay_writes overwrite_of r c [] = some c
  replay_writes overwrite_of r c (v ∷ rest) =
      let (base, remaining) = find_base overwrite_of c.value [] (v ∷ rest) in
      elim (if is_empty remaining then some base else r.reduce base remaining) [
        | none ↦ none
        | some next ↦ some (record c { value = next; update_count_since_snapshot = 0 })
      ]

  -- Updates in a row.
  unfoldable pub updates : Reducer T → DeltaChannel T → List (List T) → Option (DeltaChannel T)
  updates r c [] = some c
  updates r c (values ∷ rest) = elim (update r c values) [
    | none ↦ none
    | some (d, _) ↦ updates r d rest
  ]

  -- How many of the batches hold a write.
  abbrev pub non_empty : List (List T) → ℕ
  non_empty [] = 0
  non_empty (values ∷ rest) = if is_empty values then non_empty rest else non_empty rest + 1

  update-counts :
      (r : Reducer T) (c d : DeltaChannel T) (values : List T) (b : Bool)
      → update r c values ≡ some (d, b)
      → (d.snapshot_frequency ≡ c.snapshot_frequency)
        × (d.update_count_since_snapshot ≡ (
            if is_empty values
            then c.update_count_since_snapshot
            else (c.update_count_since_snapshot + 1) % 2 ^ 64))
  unfolding update
  update-counts r c d [] b h = ground arith
  update-counts r c d (v ∷ rest) b h = ground arith

  updates-counts :
      (r : Reducer T) (c d : DeltaChannel T) (batches : List (List T))
      → c.update_count_since_snapshot < 2 ^ 64
      → updates r c batches ≡ some d
      → (d.snapshot_frequency ≡ c.snapshot_frequency)
        × (d.update_count_since_snapshot
            ≡ (c.update_count_since_snapshot + non_empty batches) % 2 ^ 64)
  unfolding updates
  updates-counts r c d [] k h = ground arith
  updates-counts r c d (values ∷ rest) k h =
      go (update r c values) refl (λ m u q. updates-counts r m d rest u q) h
    where
      go :
          (o : Option (DeltaChannel T × Bool))
          → update r c values ≡ o
          → ((m : DeltaChannel T)
              → m.update_count_since_snapshot < 2 ^ 64
              → updates r m rest ≡ some d
              → (d.snapshot_frequency ≡ m.snapshot_frequency)
                × (d.update_count_since_snapshot
                    ≡ (m.update_count_since_snapshot + non_empty rest) % 2 ^ 64))
          → elim o [ none ↦ none | some (m, _) ↦ updates r m rest ] ≡ some d
          → (d.snapshot_frequency ≡ c.snapshot_frequency)
            × (d.update_count_since_snapshot
                ≡ (c.update_count_since_snapshot
                    + (if is_empty values then non_empty rest else non_empty rest + 1))
                  % 2 ^ 64)
      go none e later q = cc
      go (some (m, b)) e later q = ground (
        arith,
        update-counts r c m values b e,
        later m (ground (arith, update-counts r c m values b e)) q,
      )

  -- A new channel asks for a snapshot from the update on that completes `snapshot_frequency`
  -- non-empty ones, where a frequency of 0 counts as 1, and no sooner,
  -- as long as there are fewer than 2^64 of them.
  pub should_snapshot-updates :
      (r : Reducer T) (value : T) (frequency : ℕ) (batches : List (List T)) (d : DeltaChannel T)
      → non_empty batches < 2 ^ 64
      → updates r (new_delta value frequency) batches ≡ some d
      → should_snapshot d ≡ leb (max frequency 1) (non_empty batches)
  unfolding should_snapshot
  should_snapshot-updates r value frequency batches d n h =
      ground (arith, updates-counts r (new_delta value frequency) d batches (omega arith) h)

  find_base-append :
      (overwrite_of : T → Option T) (base inner w : T) (pending xs ys : List T)
      → overwrite_of w ≡ some inner
      → find_base overwrite_of base pending (xs ++ w ∷ ys) ≡ find_base overwrite_of inner [] ys
  unfolding find_base
  find_base-append overwrite_of base inner w pending [] ys h = rw (h, find_base)
  find_base-append overwrite_of base inner w pending (x ∷ xs) ys h =
      elim (Option-cases (overwrite_of x)) [
        | inl e ↦
            rw (e, find_base)
              (find_base-append overwrite_of base inner w (pending ++ x ∷ []) xs ys h)
        | inr (i, e) ↦ rw (e, find_base) (find_base-append overwrite_of i inner w [] xs ys h)
      ]

  find_base-plain :
      (overwrite_of : T → Option T) (base : T) (pending ys : List T)
      → All (λ y. overwrite_of y ≡ none) ys
      → find_base overwrite_of base pending ys ≡ (base, pending ++ ys)
  unfolding find_base
  find_base-plain overwrite_of base pending [] h =
      ap (λ (l : List T). (base, l)) (sym (append-nil pending))
  find_base-plain overwrite_of base pending (y ∷ ys) h =
      rw (h.0, find_base)
        (find_base-plain overwrite_of base (pending ++ y ∷ []) ys h.1
          ∙ ap (λ (l : List T). (base, l)) (append_assoc pending (y ∷ []) ys))

  find_base-overwrite :
      (overwrite_of : T → Option T) (base inner w : T) (xs ys : List T)
      → overwrite_of w ≡ some inner
      → All (λ y. overwrite_of y ≡ none) ys
      → find_base overwrite_of base [] (xs ++ w ∷ ys) ≡ (inner, ys)
  find_base-overwrite overwrite_of base inner w xs ys h p =
      find_base-append overwrite_of base inner w [] xs ys h
      ∙ find_base-plain overwrite_of inner [] ys p

  replay_writes-find_base :
      (overwrite_of : T → Option T) (r : Reducer T) (c : DeltaChannel T) (xs : List T) (w : T)
      (ys : List T)
      → let base = find_base overwrite_of c.value [] (xs ++ w ∷ ys) in
        replay_writes overwrite_of r c (xs ++ w ∷ ys)
        ≡ elim (if is_empty base.1 then some base.0 else r.reduce base.0 base.1) [
          | none ↦ none
          | some next ↦ some (record c { value = next; update_count_since_snapshot = 0 })
        ]
  unfolding replay_writes
  replay_writes-find_base overwrite_of r c [] w ys = refl
  replay_writes-find_base overwrite_of r c (x ∷ xs) w ys = refl

  -- A replay starts from the last overwrite: what was logged before it has no effect, the writes
  -- after it, if any, are reduced onto its inner value, which is assumed not to panic, and the count
  -- since the snapshot is 0.
  pub replay_writes-overwrite :
      (overwrite_of : T → Option T) (r : Reducer T) (c : DeltaChannel T) (inner w next : T)
      (xs ys : List T)
      → overwrite_of w ≡ some inner
      → All (λ y. overwrite_of y ≡ none) ys
      → (if is_empty ys then some inner else r.reduce inner ys) ≡ some next
      → replay_writes overwrite_of r c (xs ++ w ∷ ys)
        ≡ some (record c { value = next; update_count_since_snapshot = 0 })
  replay_writes-overwrite overwrite_of r c inner w next xs ys h p q =
      replay_writes-find_base overwrite_of r c xs w ys
      ∙ rw (find_base-overwrite overwrite_of c.value inner w xs ys h p, q)
