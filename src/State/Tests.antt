-- ===== src/State/Tests.antt =====
-- The state's parts at concrete inputs.
use juncture.Prelude.{
  ℕ, ◌-◌, ◌≤◌, String, ◌≡◌, refl, ◌⊎◌, inl, inr, Bool, true, false, Option, none, some, List, [],
  ◌∷◌, arith, leb, if◌then◌else◌, all, contains,
}
use juncture.State.Reducer.{last_write_wins, last_write_wins_reducer}
use juncture.State.Channel.Barrier.{
  NamedBarrierChannel, is_available, reset_sources, update_from, updates_from, wrote,
  is_available-updates_from,
}
use juncture.State.Channel.Topic.{flat_all}
use juncture.State.Channel.Ephemeral.{EphemeralChannel, ephemeral_update}
use juncture.State.Channel.AfterFinish.{
  LastValueAfterFinishChannel, is_available as is_final, checkpoint, get as final_get,
  from_checkpoint as final_from, IsValid, from_checkpoint-checkpoint,
}
use juncture.State.Channel.RingBuffer.{
  RingBufferChannel, object, from_checkpoint as ring_from, last_n, IsBounded, ring_updates,
  ring_updates-last_n, ring_updates-from_checkpoint,
}
use juncture.State.Channel.Delta.{DeltaChannel, new_delta, update as delta_update, updates}

abbrev barrier : NamedBarrierChannel ℕ
barrier = record { value = 0; required_sources = "a" ∷ "b" ∷ []; seen_sources = "a" ∷ [] }

abbrev arrivals : List (String × List ℕ)
arrivals = ("b", 1 ∷ []) ∷ ("a", []) ∷ ("a", 2 ∷ []) ∷ []

abbrev arrived : NamedBarrierChannel ℕ
arrived = record { value = 2; required_sources = "a" ∷ "b" ∷ []; seen_sources = "a" ∷ "b" ∷ [] }

arrivals_run : updates_from last_write_wins_reducer (reset_sources barrier) arrivals ≡ some arrived
unfolding updates_from reset_sources update_from last_write_wins
arrivals_run = refl

is_available-updates_from_example :
    is_available arrived ≡ all (λ source. contains source (wrote arrivals)) barrier.required_sources
is_available-updates_from_example =
    is_available-updates_from last_write_wins_reducer barrier arrived arrivals arrivals_run

abbrev posts : List (List (List ℕ))
posts = ((1 ∷ []) ∷ (2 ∷ 3 ∷ []) ∷ []) ∷ [] ∷ ((4 ∷ []) ∷ []) ∷ []

abbrev shown : EphemeralChannel ℕ
shown = record { value = 5; consumed = true }

abbrev rewritten : EphemeralChannel ℕ
rewritten = record { value = 7; consumed = false }

rewrite_run : ephemeral_update 0 last_write_wins_reducer shown (6 ∷ 7 ∷ []) ≡ some (rewritten, true)
unfolding ephemeral_update last_write_wins
rewrite_run = refl

-- A JSON value that is the pair, or a value of the old format.
abbrev PairJson : Type 0
PairJson = (ℕ × Bool) ⊎ ℕ

abbrev write_pair : ℕ × Bool → Option PairJson
write_pair p = some (inl p)

abbrev read_pair : PairJson → Option (ℕ × Bool)
read_pair (inl p) = some p
read_pair (inr v) = none

abbrev read_value : PairJson → Option ℕ
read_value (inl p) = none
read_value (inr v) = some v

read_written : (p : ℕ × Bool) (j : PairJson) → write_pair p ≡ some j → read_pair j ≡ some p
read_written p (inl q) h = cc
read_written p (inr v) h = cc

abbrev final : LastValueAfterFinishChannel ℕ
final = record { value = 4; finished_value = some 4; is_finished = true }

final-IsValid : IsValid final
final-IsValid = inr (refl, refl)

final_written : checkpoint write_pair read_pair read_value final ≡ some (inl (4, true))
unfolding checkpoint
final_written = refl

from_checkpoint-checkpoint_example :
    (d : LastValueAfterFinishChannel ℕ) × (final_from write_pair read_pair read_value
        (inl (4, true))
      ≡ some d)
    × (is_final final ≡ true)
    × (is_final d ≡ true)
    × (final_get d ≡ final_get final)
    × IsValid d
from_checkpoint-checkpoint_example =
    from_checkpoint-checkpoint write_pair read_pair read_value read_written final final-IsValid
      (inl (4, true)) final_written

abbrev ring : RingBufferChannel ℕ
ring = record { values = 1 ∷ 2 ∷ []; capacity = 3 }

ring-IsBounded : IsBounded ring
ring-IsBounded = omega arith

ring_updates-last_n_example : (ring_updates ring posts).values ≡ last_n 3 (1 ∷ 2 ∷ flat_all posts)
ring_updates-last_n_example = ring_updates-last_n ring posts ring-IsBounded

-- A checkpoint of three values with the capacity 2.
abbrev overfull : RingBufferChannel ℕ
overfull = record { values = 7 ∷ 8 ∷ 9 ∷ []; capacity = 2 }

ring_updates-from_checkpoint_example :
    (1 ≤ 2)
    × IsBounded (ring_updates overfull posts)
    × ((ring_updates overfull posts).values ≡ last_n 2 (7 ∷ 8 ∷ 9 ∷ flat_all posts))
unfolding ring_from
ring_updates-from_checkpoint_example =
    ring_updates-from_checkpoint (object (some (7 ∷ 8 ∷ 9 ∷ [])) (some 2)) overfull
      ((1 ∷ []) ∷ (2 ∷ 3 ∷ []) ∷ []) ([] ∷ ((4 ∷ []) ∷ []) ∷ []) refl

abbrev logged : DeltaChannel ℕ
logged = record { value = 3; snapshot_frequency = 2; update_count_since_snapshot = 2 }

logged_run :
    updates last_write_wins_reducer (new_delta 0 2) ((1 ∷ []) ∷ [] ∷ (2 ∷ 3 ∷ []) ∷ [])
    ≡ some logged
unfolding updates delta_update last_write_wins
logged_run = refl

-- An overwrite is a value from 100 on, whose inner value is what is above 100.
abbrev over_hundred : ℕ → Option ℕ
over_hundred v = if leb 100 v then some (v - 100) else none

six_written : last_write_wins {T = ℕ} 5 (6 ∷ []) ≡ some 6
unfolding last_write_wins
six_written = refl
