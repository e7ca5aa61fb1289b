-- ===== src/State/Messages/Tests.antt =====
-- The messages reducer at concrete inputs. The JSON values are numbers.
use juncture.Prelude.{ℕ, ◌≡◌, refl, List, [], ◌∷◌}
use juncture.State.Messages.{
  Message, human_message, ai_message, messages_reducer, receive, replace_first, remove, remove_all,
}
use juncture.State.Messages.Reduction.{
  find_message, held_after_all, find_message-messages_reducer, HasUniqueIds,
  messages_reducer-HasUniqueIds,
}

abbrev history : List (Message ℕ)
history = human_message "a" "hello" ∷ ai_message "b" "hi" ∷ []

abbrev news : List (Message ℕ)
news = ai_message "b" "bye" ∷ remove "a" ∷ human_message "c" "what?" ∷ []

abbrev replaced : List (Message ℕ)
replaced = ai_message "b" "bye" ∷ human_message "c" "what?" ∷ []

news_run : messages_reducer history news ≡ replaced
unfolding messages_reducer receive replace_first remove
news_run = refl

cleared_run : messages_reducer history (remove_all ∷ news) ≡ replaced
unfolding messages_reducer receive replace_first remove remove_all
cleared_run = refl

history-HasUniqueIds : HasUniqueIds history
unfolding find_message
history-HasUniqueIds = (refl, (refl, tt))

find_message-messages_reducer_example :
    find_message "b" (messages_reducer history news)
    ≡ held_after_all "b" (find_message "b" history) news
find_message-messages_reducer_example = find_message-messages_reducer "b" history news

messages_reducer-HasUniqueIds_example : HasUniqueIds (messages_reducer history news)
messages_reducer-HasUniqueIds_example =
    messages_reducer-HasUniqueIds history news history-HasUniqueIds
