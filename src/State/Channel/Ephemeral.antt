-- ===== src/State/Channel/Ephemeral.antt =====
-- `UntrackedChannel` and `EphemeralChannel`: fields that no checkpoint keeps.
use juncture.Prelude.{
  ◌≡◌, Bool, true, false, ◌&&◌, Option, none, some, List, [], ◌∷◌, arith, is_empty,
}
use juncture.State.Reducer.{Reducer}

pub record UntrackedChannel (T : Type 0) : Type 0 where
  pub value : T

pub record EphemeralChannel (T : Type 0) : Type 0 where
  pub value : T
  pub consumed : Bool

-- `default` is `T::default()`; a checkpoint of these channels is `none` whatever they hold.
module _ {T : Type 0} (default : T) (r : Reducer T) where
  unfoldable pub untracked_update : UntrackedChannel T → List T → Option (UntrackedChannel T × Bool)
  untracked_update c [] = some (c, false)
  untracked_update c (v ∷ rest) = elim (r.reduce c.value (v ∷ rest)) [
    | none ↦ none
    | some next ↦ some (record { value = next }, true)
  ]

  unfoldable pub ephemeral_update : EphemeralChannel T → List T → Option (EphemeralChannel T × Bool)
  ephemeral_update c [] = some (c, false)
  ephemeral_update c (v ∷ rest) = elim (r.reduce c.value (v ∷ rest)) [
    | none ↦ none
    | some next ↦ some (record { value = next; consumed = false }, true)
  ]

  unfoldable pub ephemeral_consume : EphemeralChannel T → EphemeralChannel T × Bool
  ephemeral_consume c = (record { value = default; consumed = true }, c.consumed)

  -- After an update that does not panic, a consumption leaves the default and the next one reports
  -- true. The first reports whether the channel was consumed before the update and the update was
  -- given no value.
  pub ephemeral_consume-update :
      (c d : EphemeralChannel T) (values : List T) (b : Bool)
      → ephemeral_update c values ≡ some (d, b)
      → ((ephemeral_consume d).0.value ≡ default)
        × ((ephemeral_consume (ephemeral_consume d).0).1 ≡ true)
        × ((ephemeral_consume d).1 ≡ (is_empty values && c.consumed))
  unfolding ephemeral_update ephemeral_consume
  ephemeral_consume-update c d [] b h = ground arith
  ephemeral_consume-update c d (v ∷ rest) b h = ground arith

module _ {T J : Type 0} (default : T) where
  unfoldable pub untracked_checkpoint : UntrackedChannel T → Option J
  untracked_checkpoint c = none

  unfoldable pub untracked_from_checkpoint : J → UntrackedChannel T
  untracked_from_checkpoint j = record { value = default }

  unfoldable pub ephemeral_checkpoint : EphemeralChannel T → Option J
  ephemeral_checkpoint c = none

  unfoldable pub ephemeral_from_checkpoint : J → EphemeralChannel T
  ephemeral_from_checkpoint j = record { value = default; consumed = false }
