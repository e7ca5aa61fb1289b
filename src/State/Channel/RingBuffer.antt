-- ===== src/State/Channel/RingBuffer.antt =====
-- `RingBufferChannel`: the last `capacity` values.
use juncture.Prelude.{
  ℕ, zero, suc, ◌+◌, ◌-◌, ◌≤◌, max, ◌≡◌, refl, sym, ap, ◌∙◌, inl, inr, Bool, not, Option, none,
  some, List, [], ◌∷◌, ◌++◌, arith, ltb, if◌then◌else◌, Bool-cases, length, is_empty, drop, any,
  length-append, length-drop,
}
use mathlib.Core.List.{append-nil, append_assoc}
use mathlib.Core.Option.{some-injective}
use mathlib.Core.Path.{ap₂}
use native.Mathlib.Nat.{add-zero, add-suc}
use juncture.State.Reducer.{extend_all}
use juncture.State.Channel.Topic.{flat, flat_all, extend_all-flat}

pub record RingBufferChannel (T : Type 0) : Type 0 where
  pub values : List T
  pub capacity : ℕ

-- What `from_checkpoint` reads from a JSON value: an object with its two fields, of which the
-- values may fail to parse and the capacity may be missing or no unsigned number, or another value,
-- which the old format reads as the list.
pub data RingJson (T : Type 0) : Type 0 where
  object : Option (List T) → Option ℕ → RingJson T
  other : Option (List T) → RingJson T

module _ {T : Type 0} where
  -- `drain(..excess)`
  unfoldable pub trim_to_capacity : RingBufferChannel T → RingBufferChannel T
  trim_to_capacity c =
      if ltb c.capacity (length c.values)
      then record c { values = drop (length c.values - c.capacity) c.values }
      else c

  unfoldable pub new_ring : List T → ℕ → RingBufferChannel T
  unfolding trim_to_capacity
  new_ring values capacity =
      trim_to_capacity (record { values = values; capacity = max capacity 1 })

  unfoldable pub ring_update : RingBufferChannel T → List (List T) → RingBufferChannel T × Bool
  unfolding trim_to_capacity
  ring_update c values = (
    trim_to_capacity (record c { values = extend_all c.values values }),
    any (λ v. not (is_empty v)) values,
  )

  unfoldable pub from_checkpoint : RingJson T → Option (RingBufferChannel T)
  from_checkpoint (object none capacity) = none
  from_checkpoint (object (some values) capacity) =
      some
        (record { values = values; capacity = max (elim capacity [ none ↦ 1000 | some c ↦ c ]) 1 })
  from_checkpoint (other none) = none
  from_checkpoint (other (some values)) = some (record { values = values; capacity = 1000 })

  -- The last `n` elements.
  abbrev pub last_n : ℕ → List T → List T
  last_n n xs = drop (length xs - n) xs

  trim-last_n : (c : RingBufferChannel T) → (trim_to_capacity c).values ≡ last_n c.capacity c.values
  unfolding trim_to_capacity
  trim-last_n c = elim (Bool-cases (ltb c.capacity (length c.values))) [
    | inl e ↦ rw (e, trim_to_capacity)
    | inr e ↦
        let none_over : length c.values - c.capacity ≡ 0 = ground arith in
        rw (e, trim_to_capacity, none_over)
  ]

  capacity-trim : (c : RingBufferChannel T) → (trim_to_capacity c).capacity ≡ c.capacity
  unfolding trim_to_capacity
  capacity-trim c = ground arith

  drop-append :
      (a b : ℕ) (xs ys : List T)
      → b ≤ length xs
      → drop a (drop b xs ++ ys) ≡ drop (a + b) (xs ++ ys)
  drop-append a zero xs ys h = rw add-zero
  drop-append a (suc b) [] ys h = elim h [ ]
  drop-append a (suc b) (x ∷ xs) ys h = rw add-suc (drop-append a b xs ys (omega arith))

  last_n-append : (n : ℕ) (xs ys : List T) → last_n n (last_n n xs ++ ys) ≡ last_n n (xs ++ ys)
  last_n-append n xs ys =
      let kept = last_n n xs in
      drop-append (length (kept ++ ys) - n) (length xs - n) xs ys (omega arith)
      ∙ ap (λ (k : ℕ). drop k (xs ++ ys))
          (omega
            (arith, length-append kept ys, length-append xs ys, length-drop (length xs - n) xs))

  length-last_n : (n : ℕ) (xs : List T) → length (last_n n xs) ≤ n
  length-last_n n xs = omega (arith, length-drop (length xs - n) xs)

  abbrev pub IsBounded : RingBufferChannel T → Type 0
  IsBounded c = length c.values ≤ c.capacity

  pub new_ring-IsBounded : (values : List T) (capacity : ℕ) → IsBounded (new_ring values capacity)
  unfolding new_ring
  new_ring-IsBounded values capacity =
      ground (arith, length-drop (length values - max capacity 1) values)

  -- Updates in a row.
  unfoldable pub ring_updates : RingBufferChannel T → List (List (List T)) → RingBufferChannel T
  ring_updates c [] = c
  ring_updates c (values ∷ rest) = ring_updates (ring_update c values).0 rest

  ring_update-values :
      (c : RingBufferChannel T) (values : List (List T))
      → ((ring_update c values).0.values ≡ last_n c.capacity (c.values ++ flat values))
        × ((ring_update c values).0.capacity ≡ c.capacity)
  unfolding ring_update
  ring_update-values c values = (
    trim-last_n (record c { values = extend_all c.values values })
        ∙ ap (last_n c.capacity) (extend_all-flat c.values values),
    capacity-trim (record c { values = extend_all c.values values }),
  )

  ring_updates-cons :
      (n : ℕ) (c : RingBufferChannel T) (us : List (List (List T))) (held : List T)
      → c.capacity ≡ n
      → c.values ≡ last_n n held
      → (ring_updates c us).values ≡ last_n n (held ++ flat_all us)
  unfolding ring_updates
  ring_updates-cons n c [] held p q = rw append-nil q
  ring_updates-cons n c (u ∷ us) held p q =
      let (v, k) = ring_update-values c u in
      ring_updates-cons n (ring_update c u).0 us (held ++ flat u) (k ∙ p) (
        v
        ∙ ap₂ (λ (m : ℕ) (l : List T). last_n m (l ++ flat u)) p q
        ∙ last_n-append n held (flat u))
      ∙ ap (last_n n) (append_assoc held (flat u) (flat_all us))

  -- A channel within its capacity holds, after any updates, the last `capacity` of the values that
  -- it held and of all that it was given since, in order.
  pub ring_updates-last_n :
      (c : RingBufferChannel T) (us : List (List (List T)))
      → IsBounded c
      → (ring_updates c us).values ≡ last_n c.capacity (c.values ++ flat_all us)
  ring_updates-last_n c us h =
      let within : length c.values - c.capacity ≡ 0 = omega arith in
      ring_updates-cons c.capacity c us c.values refl (ap (λ (k : ℕ). drop k c.values) (sym within))

  capacity-ring_updates :
      (c : RingBufferChannel T) (us : List (List (List T)))
      → (ring_updates c us).capacity ≡ c.capacity
  unfolding ring_updates
  capacity-ring_updates c [] = refl
  capacity-ring_updates c (u ∷ us) =
      capacity-ring_updates (ring_update c u).0 us ∙ (ring_update-values c u).1

  capacity-from_checkpoint :
      (json : RingJson T) (c : RingBufferChannel T) → from_checkpoint json ≡ some c → 1 ≤ c.capacity
  unfolding from_checkpoint
  capacity-from_checkpoint (object none capacity) c e = absurd (ground arith)
  capacity-from_checkpoint (object (some values) capacity) c e =
      let same = ap (λ (r : RingBufferChannel T). r.capacity) (some-injective _ _ e) in
      omega (arith, same)
  capacity-from_checkpoint (other none) c e = absurd (ground arith)
  capacity-from_checkpoint (other (some values)) c e =
      let same = ap (λ (r : RingBufferChannel T). r.capacity) (some-injective _ _ e) in
      omega (arith, same)

  -- A channel that is restored from any checkpoint, also from one with more values than the capacity,
  -- has a capacity of 1 or more, and from its first update on it holds the last `capacity` of the
  -- values that it was restored with and of all that it was given since, in order, and no more.
  pub ring_updates-from_checkpoint :
      (json : RingJson T) (c : RingBufferChannel T) (u : List (List T)) (us : List (List (List T)))
      → from_checkpoint json ≡ some c
      → (1 ≤ c.capacity)
        × IsBounded (ring_updates c (u ∷ us))
        × ((ring_updates c (u ∷ us)).values ≡ last_n c.capacity (c.values ++ flat_all (u ∷ us)))
  unfolding ring_updates
  ring_updates-from_checkpoint json c u us restored =
      let (v, k) = ring_update-values c u in
      let held : (ring_updates c (u ∷ us)).values
          ≡ last_n c.capacity (c.values ++ flat_all (u ∷ us)) =
        ring_updates-cons c.capacity (ring_update c u).0 us (c.values ++ flat u) k v
        ∙ ap (last_n c.capacity) (append_assoc c.values (flat u) (flat_all us)) in
      (
        capacity-from_checkpoint json c restored,
        omega (
          arith,
          ap (λ (xs : List T). length xs) held,
          length-last_n c.capacity (c.values ++ flat_all (u ∷ us)),
          capacity-ring_updates c (u ∷ us),
        ),
        held,
      )
