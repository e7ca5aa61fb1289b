-- ===== src/State/Messages.antt =====
-- crates/juncture-core/src/state/messages.rs: messages, and the reducer that appends, replaces and
-- deletes them by id. `J` is the JSON type of serde; `uuid` stands for a fresh id.
pub mod Reduction
mod Tests
use juncture.Prelude.{
  ℕ, String, Bool, not, Option, none, some, List, [], ◌∷◌, ◌++◌, str_eq, if◌then◌else◌, is_empty,
  filter,
}
use Prim.Native.String.{slice, len, ◌++◌ as concat}
use package.text.Mathlib.Text.{starts_with}
use juncture.State.Fields.{FieldsChanged, no_fields, set_field}

pub data Role : Type 0 where
  system human ai tool : Role

pub data ImageSource : Type 0 where
  base64 : String → ImageSource
  url : String → ImageSource

pub record ImageData : Type 0 where
  pub media_type : String
  pub source : ImageSource

pub data ContentPart : Type 0 where
  text_part : String → ContentPart
  image : ImageData → ContentPart
  thinking : String → Option String → ContentPart

pub data Content : Type 0 where
  text : String → Content
  multi_part : List ContentPart → Content

pub record ToolCall (J : Type 0) : Type 0 where
  pub id : String
  pub name : String
  pub arguments : J

pub record TokenUsage : Type 0 where
  pub input_tokens : ℕ
  pub output_tokens : ℕ
  pub total_tokens : ℕ

pub record Message (J : Type 0) : Type 0 where
  pub id : String
  pub role : Role
  pub content : Content
  pub tool_calls : List (ToolCall J)
  pub tool_call_id : Option String
  pub name : Option String
  pub usage : Option TokenUsage

abbrev pub remove_all_messages : String
remove_all_messages = "__remove_all__"

abbrev pub remove_prefix : String
remove_prefix = "__remove__:"

-- What the reducer reads an id as.
abbrev pub is_removal : String → Bool
is_removal id = starts_with id remove_prefix

abbrev pub target_id : String → String
target_id id = slice id (len remove_prefix) (len id)

-- `MessagesState` and `MessagesStateUpdate`
pub record MessagesState (J : Type 0) : Type 0 where
  pub messages : List (Message J)

pub record MessagesStateUpdate (J : Type 0) : Type 0 where
  pub messages : Option (List (Message J))

abbrev pub first_text : List ContentPart → String
first_text [] = ""
first_text (text_part t ∷ parts) = t
first_text (image i ∷ parts) = first_text parts
first_text (thinking t s ∷ parts) = first_text parts

module _ {J : Type 0} where
  -- `iter_mut().find`: the first message with the id is replaced, if there is one.
  unfoldable pub replace_first : Message J → List (Message J) → Option (List (Message J))
  replace_first msg [] = none
  replace_first msg (m ∷ ms) =
      let later = replace_first msg ms in
      if str_eq m.id msg.id
      then some (msg ∷ ms)
      else elim later [ none ↦ none | some rest ↦ some (m ∷ rest) ]

  -- One turn of the loop.
  unfoldable pub receive : List (Message J) → Message J → List (Message J)
  receive current msg =
      if str_eq msg.id remove_all_messages
      then []
      else if is_removal msg.id
      then filter (λ m. not (str_eq m.id (target_id msg.id))) current
      else elim (replace_first msg current) [
        | some replaced ↦ replaced
        | none ↦ current ++ msg ∷ []
      ]

  unfoldable pub messages_reducer : List (Message J) → List (Message J) → List (Message J)
  messages_reducer current [] = current
  messages_reducer current (msg ∷ incoming) = messages_reducer (receive current msg) incoming

  unfoldable pub apply : MessagesState J → MessagesStateUpdate J → MessagesState J × FieldsChanged
  apply s u = elim u.messages [
    | none ↦ (s, no_fields)
    | some messages ↦
        (record { messages = messages_reducer s.messages messages }, set_field no_fields 0)
  ]

  -- A message of plain text without tool calls.
  abbrev pub plain_message : String → Role → String → Message J
  plain_message id role content = record {
    id = id;
    role = role;
    content = text content;
    tool_calls = [];
    tool_call_id = none;
    name = none;
    usage = none;
  }

  unfoldable pub remove : String → Message J
  remove id = plain_message (concat remove_prefix id) system ""

  unfoldable pub remove_all : Message J
  remove_all = plain_message remove_all_messages system ""

  -- The constructors, each with the id that `uuid` gives.
  module _ (uuid : String) where
    abbrev pub human_message : String → Message J
    human_message content = plain_message uuid human content

    abbrev pub ai_message : String → Message J
    ai_message content = plain_message uuid ai content

    abbrev pub ai_with_tool_calls : String → List (ToolCall J) → Message J
    ai_with_tool_calls content tool_calls = record (plain_message uuid ai content) {
      tool_calls = tool_calls;
    }

    abbrev pub system_message : String → Message J
    system_message content = plain_message uuid system content

    abbrev pub tool_result : String → String → Message J
    tool_result tool_call_id content = record (plain_message uuid tool content) {
      tool_call_id = some tool_call_id;
    }

  unfoldable pub has_tool_calls : Message J → Bool
  has_tool_calls m = not (is_empty m.tool_calls)

  unfoldable pub content_text : Message J → String
  content_text m = elim m.content [ text s ↦ s | multi_part parts ↦ first_text parts ]
