-- ===== src/State/Channel/Topic.antt =====
-- `TopicChannel`: collects every message, in order, until it is consumed.
use juncture.Prelude.{◌≡◌, sym, ap, ◌∙◌, Bool, true, false, not, List, [], ◌∷◌, ◌++◌, is_empty}
use mathlib.Core.List.{append-nil, append_assoc}
use juncture.State.Reducer.{extend_all}

pub record TopicChannel (T : Type 0) : Type 0 where
  pub messages : List T

module _ {T : Type 0} where
  abbrev pub empty_topic : TopicChannel T
  empty_topic = record { messages = [] }

  unfoldable pub topic_update : TopicChannel T → List (List T) → TopicChannel T × Bool
  topic_update c [] = (c, false)
  topic_update c (batch ∷ rest) = (record { messages = extend_all c.messages (batch ∷ rest) }, true)

  unfoldable pub topic_get : TopicChannel T → List T
  topic_get c = c.messages

  unfoldable pub topic_consume : TopicChannel T → TopicChannel T × Bool
  topic_consume c = (record { messages = [] }, not (is_empty c.messages))

  -- Updates in a row.
  unfoldable pub topic_updates : TopicChannel T → List (List (List T)) → TopicChannel T
  topic_updates c [] = c
  topic_updates c (values ∷ rest) = topic_updates (topic_update c values).0 rest

  -- All messages of some updates, in order.
  abbrev pub flat : List (List T) → List T
  flat [] = []
  flat (v ∷ vs) = v ++ flat vs

  abbrev pub flat_all : List (List (List T)) → List T
  flat_all [] = []
  flat_all (u ∷ us) = flat u ++ flat_all us

  pub extend_all-flat : (xs : List T) (vs : List (List T)) → extend_all xs vs ≡ xs ++ flat vs
  extend_all-flat xs [] = sym (append-nil xs)
  extend_all-flat xs (v ∷ vs) = extend_all-flat (xs ++ v) vs ∙ append_assoc xs v (flat vs)

  topic_update-flat :
      (c : TopicChannel T) (values : List (List T))
      → topic_get (topic_update c values).0 ≡ c.messages ++ flat values
  unfolding topic_update topic_get
  topic_update-flat c [] = sym (append-nil c.messages)
  topic_update-flat c (v ∷ vs) = extend_all-flat c.messages (v ∷ vs)

  topic_updates-messages :
      (c : TopicChannel T) (us : List (List (List T)))
      → (topic_updates c us).messages ≡ c.messages ++ flat_all us
  unfolding topic_updates topic_get
  topic_updates-messages c [] = sym (append-nil c.messages)
  topic_updates-messages c (u ∷ us) =
      topic_updates-messages (topic_update c u).0 us
      ∙ ap (λ (l : List T). l ++ flat_all us) (topic_update-flat c u)
      ∙ append_assoc c.messages (flat u) (flat_all us)

  -- The channel holds what it held and every message written since, in order; `consume` empties
  -- it, and reports whether there was a message.
  pub topic_updates-flat :
      (c : TopicChannel T) (us : List (List (List T)))
      → (topic_get (topic_updates c us) ≡ c.messages ++ flat_all us)
        × (topic_consume (topic_updates c us)
            ≡ (empty_topic, not (is_empty (c.messages ++ flat_all us))))
  unfolding topic_get topic_consume
  topic_updates-flat c us =
      let held = topic_updates-messages c us in
      (held, ap {B = TopicChannel T × Bool} (λ (l : List T). (empty_topic, not (is_empty l))) held)
