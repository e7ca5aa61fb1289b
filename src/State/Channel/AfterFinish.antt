-- ===== src/State/Channel/AfterFinish.antt =====
-- `LastValueAfterFinishChannel`: a value that is final once the graph has finished.
use juncture.Prelude.{
  ◌≡◌, refl, ap, ◌∙◌, ◌⊎◌, inr, Bool, true, false, Option, none, some, List, [], ◌∷◌, arith,
  if◌then◌else◌,
}
use juncture.State.Reducer.{Reducer}

pub record LastValueAfterFinishChannel (T : Type 0) : Type 0 where
  pub value : T
  pub finished_value : Option T
  pub is_finished : Bool

module _ {T : Type 0} where
  abbrev pub new_after_finish : T → LastValueAfterFinishChannel T
  new_after_finish value = record { value = value; finished_value = none; is_finished = false }

  unfoldable pub finish : LastValueAfterFinishChannel T → LastValueAfterFinishChannel T
  finish c = record c { is_finished = true }

  unfoldable pub is_available : LastValueAfterFinishChannel T → Bool
  is_available c = c.is_finished

  unfoldable pub get : LastValueAfterFinishChannel T → T
  get c = if c.is_finished then elim c.finished_value [ none ↦ c.value | some v ↦ v ] else c.value

  unfoldable pub update :
      Reducer T
      → LastValueAfterFinishChannel T
      → List T
      → Option (LastValueAfterFinishChannel T × Bool)
  update r c [] = some (c, false)
  update r c (v ∷ rest) = elim (r.reduce c.value (v ∷ rest)) [
    | none ↦ none
    | some next ↦ some (
      record c {
        value = next;
        finished_value = if c.is_finished then some next else c.finished_value;
      },
      true,
    )
  ]

  -- A final value is kept only by a finished channel, and is its value.
  abbrev pub IsValid : LastValueAfterFinishChannel T → Type 0
  IsValid c =
      (c.finished_value ≡ none) ⊎ ((c.finished_value ≡ some c.value) × (c.is_finished ≡ true))

  pub finish-IsValid : (c : LastValueAfterFinishChannel T) → IsValid c → IsValid (finish c)
  unfolding finish
  finish-IsValid c v = ground arith

  pub update-IsValid :
      (r : Reducer T) (c d : LastValueAfterFinishChannel T) (values : List T) (b : Bool)
      → IsValid c
      → update r c values ≡ some (d, b)
      → IsValid d
  unfolding update
  update-IsValid r c d values b v h = ground arith

-- `pair_to` and `pair_from` convert a value with the flag; `value_from` is the old format.
module _ {T J : Type 0} (pair_to : T × Bool → Option J) (pair_from : J → Option (T × Bool))
    (value_from : J → Option T) where
  unfoldable pub checkpoint : LastValueAfterFinishChannel T → Option J
  checkpoint c = if c.is_finished then pair_to (c.value, c.is_finished) else none

  unfoldable pub from_checkpoint : J → Option (LastValueAfterFinishChannel T)
  from_checkpoint j = elim (pair_from j) [
    | some (v, finished) ↦ some (record {
      value = v;
      finished_value = if finished then some v else none;
      is_finished = finished;
    })
    | none ↦ elim (value_from j) [ none ↦ none | some v ↦ some (new_after_finish v) ]
  ]

  -- A valid channel that gives a checkpoint is available, and the channel restored from it is valid,
  -- available and shows the same value, where reading a written pair gives that pair back.
  pub from_checkpoint-checkpoint :
      ((p : T × Bool) (j : J) → pair_to p ≡ some j → pair_from j ≡ some p)
      → (c : LastValueAfterFinishChannel T) → IsValid c
      → (j : J) → checkpoint c ≡ some j
      → (d : LastValueAfterFinishChannel T) × (from_checkpoint j ≡ some d)
        × (is_available c ≡ true)
        × (is_available d ≡ true)
        × (get d ≡ get c)
        × IsValid d
  unfolding checkpoint from_checkpoint get is_available
  from_checkpoint-checkpoint law c v j h =
      let fin : c.is_finished ≡ true = ground arith in
      let wrote : pair_to (c.value, c.is_finished) ≡ some j = ground arith in
      let read : pair_from j ≡ some (c.value, true) =
        law (c.value, c.is_finished) j wrote ∙ ap (λ (b : Bool). some (c.value, b)) fin in
      (
        record { value = c.value; finished_value = some c.value; is_finished = true },
        rw (read, from_checkpoint),
        fin,
        refl,
        ground arith,
        inr (refl, refl),
      )
