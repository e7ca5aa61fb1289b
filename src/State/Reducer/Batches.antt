-- ===== src/State/Reducer/Batches.antt =====
-- A batch of writes against the same writes one at a time.
use juncture.Prelude.{◌≡◌, refl, sym, Bool, Option, none, some, List, [], ◌∷◌, ◌++◌, arith}
use juncture.State.Reducer.{
  last, reduce_one, last_write_wins, last_write_wins_reducer, any_value, append, append_one,
}

module _ {T : Type 0} where
  -- The writes of a batch, each merged by itself.
  abbrev pub one_by_one : (T → T → Option T) → T → List T → Option T
  one_by_one step current [] = some current
  one_by_one step current (v ∷ vs) = elim (step current v) [
    | none ↦ none
    | some next ↦ one_by_one step next vs
  ]

  last_write_wins-last :
      (current v : T) (vs : List T)
      → one_by_one (reduce_one last_write_wins_reducer) v vs ≡ some (last v vs)
  unfolding reduce_one last_write_wins
  last_write_wins-last current v [] = refl
  last_write_wins-last current v (w ∷ vs) = last_write_wins-last current w vs

  -- The last-write-wins reducer gives for a batch what it gives for the writes one by one.
  pub last_write_wins-one_by_one :
      (current : T) (values : List T)
      → last_write_wins current values
        ≡ one_by_one (reduce_one last_write_wins_reducer) current values
  unfolding reduce_one last_write_wins
  last_write_wins-one_by_one current [] = refl
  last_write_wins-one_by_one current (v ∷ vs) = sym (last_write_wins-last current v vs)

  -- Where no debug assertion of `AnyValue` fails, last-write-wins gives the same value.
  pub any_value-last_write_wins :
      (eq : T → T → Bool) (debug : Bool) (current next : T) (values : List T)
      → any_value eq debug current values ≡ some next
      → last_write_wins current values ≡ some next
  unfolding any_value last_write_wins
  any_value-last_write_wins eq debug current next [] h = h
  any_value-last_write_wins eq debug current next (v ∷ vs) h = ground arith

-- The append reducer gives for a batch what `reduce_one` gives for its lists one by one.
pub append-one_by_one :
    {T : Type 0} (current : List T) (values : List (List T))
    → append current values ≡ one_by_one append_one current values
unfolding append append_one
append-one_by_one current [] = refl
append-one_by_one current (v ∷ vs) = append-one_by_one (current ++ v) vs
