-- ===== src/State/Reducer.antt =====
-- crates/juncture-core/src/state/channel.rs: the reducers, which merge the writes of a superstep.
-- A reducer that panics gives `none`. `debug_assert!` is checked where `debug` is set.
pub mod Batches
use juncture.Prelude.{Bool, not, ◌&&◌, Option, none, some, List, [], ◌∷◌, ◌++◌, if◌then◌else◌, all}
use mathlib.Core.Option

-- The trait: `reduce current values`.
pub record Reducer (T : Type 0) : Type 0 where
  pub reduce : T → List T → Option T

abbrev pub last {ℓ} : {A : Type ℓ} → A → List A → A
last a [] = a
last a (x ∷ xs) = last x xs

abbrev pub extend_all {ℓ} : {A : Type ℓ} → List A → List (List A) → List A
extend_all xs [] = xs
extend_all xs (v ∷ vs) = extend_all (xs ++ v) vs

module _ {T : Type 0} where
  -- The default of the trait.
  unfoldable pub reduce_one : Reducer T → T → T → Option T
  reduce_one r current value = r.reduce current (value ∷ [])

  unfoldable pub replace : T → List T → Option T
  replace current [] = some current
  replace current (v ∷ []) = some v
  replace current (v ∷ w ∷ rest) = none

  abbrev pub replace_reducer : Reducer T
  replace_reducer = record { reduce = λ current values. replace current values }

  unfoldable pub last_write_wins : T → List T → Option T
  last_write_wins current [] = some current
  last_write_wins current (v ∷ rest) = some (last v rest)

  abbrev pub last_write_wins_reducer : Reducer T
  last_write_wins_reducer = record { reduce = λ current values. last_write_wins current values }

  unfoldable pub any_value : (T → T → Bool) → Bool → T → List T → Option T
  any_value eq debug current [] = some current
  any_value eq debug current (v ∷ rest) =
      if debug && not (all (λ w. eq w v) (v ∷ rest)) then none else some (last v rest)

  abbrev pub any_value_reducer : (T → T → Bool) → Bool → Reducer T
  any_value_reducer eq debug = record {
    reduce = λ current values. any_value eq debug current values;
  }

  unfoldable pub append : List T → List (List T) → Option (List T)
  append current values = some (extend_all current values)

  abbrev pub append_reducer : Reducer (List T)
  append_reducer = record { reduce = λ current values. append current values }

  -- `AppendReducer` overrides `reduce_one`.
  unfoldable pub append_one : List T → List T → Option (List T)
  append_one current value = some (current ++ value)
