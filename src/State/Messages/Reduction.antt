-- ===== src/State/Messages/Reduction.antt =====
-- What the messages reducer leaves under each id.
use juncture.Prelude.{
  ℕ, String, ◌≡◌, refl, sym, ap, ◌∙◌, inl, inr, Bool, true, false, not, Option, none, some, List,
  [], ◌∷◌, ◌++◌, arith, str_eq, eq_iff, if◌then◌else◌, Bool-cases, filter,
}
use Prim.Native.String.{slice, len, ◌++◌ as concat}
use mathlib.Core.Path.{subst⁻¹}
use text.Mathlib.TextPositions.{starts_with-append, slice-append_right, len-append}
use juncture.State.Messages.{
  Message, remove_all_messages, remove_prefix, is_removal, target_id, replace_first, receive,
  messages_reducer, remove,
}

removal_of :
    (id : String)
    → (is_removal (concat remove_prefix id) ≡ true) × (target_id (concat remove_prefix id) ≡ id)
removal_of id = (
  starts_with-append remove_prefix id,
  ap (λ (n : ℕ). slice (concat remove_prefix id) (len remove_prefix) n)
        (len-append remove_prefix id)
      ∙ slice-append_right remove_prefix id,
)

not_all : (id : String) → str_eq (concat remove_prefix id) remove_all_messages ≡ false
not_all id = elim (Bool-cases (str_eq (concat remove_prefix id) remove_all_messages)) [
  | inl e ↦
      let all : concat remove_prefix id ≡ remove_all_messages =
        (eq_iff (concat remove_prefix id) remove_all_messages).0 e in
      let clash : false ≡ true = sym (ap is_removal all) ∙ (removal_of id).0 in ground arith
  | inr e ↦ e
]

module _ {J : Type 0} where
  -- The first message with an id.
  unfoldable pub find_message : String → List (Message J) → Option (Message J)
  find_message id [] = none
  find_message id (m ∷ ms) =
      let later = find_message id ms in if str_eq m.id id then some m else later

  -- What is held under an id after one message, and after a list of them, by what was held before.
  abbrev pub held_after : String → Option (Message J) → Message J → Option (Message J)
  held_after id held msg =
      if str_eq msg.id remove_all_messages
      then none
      else if is_removal msg.id
      then (if str_eq id (target_id msg.id) then none else held)
      else if str_eq msg.id id
      then some msg
      else held

  unfoldable pub held_after_all :
      String → Option (Message J) → List (Message J) → Option (Message J)
  held_after_all id held [] = held
  held_after_all id held (msg ∷ incoming) = held_after_all id (held_after id held msg) incoming

  find_message-filter :
      (id target : String) (ms : List (Message J))
      → find_message id (filter (λ m. not (str_eq m.id target)) ms)
        ≡ (if str_eq id target then none else find_message id ms)
  unfolding find_message
  find_message-filter id target [] = ground arith
  find_message-filter id target (m ∷ ms) = ground (
    arith,
    eq_iff m.id target,
    eq_iff m.id id,
    eq_iff id target,
    find_message-filter id target ms,
  )

  abbrev pub upsert : Message J → List (Message J) → List (Message J)
  upsert msg ms = elim (replace_first msg ms) [ some replaced ↦ replaced | none ↦ ms ++ msg ∷ [] ]

  upsert-cons :
      (msg m : Message J) (ms : List (Message J))
      → upsert msg (m ∷ ms) ≡ (if str_eq m.id msg.id then msg ∷ ms else m ∷ upsert msg ms)
  unfolding replace_first
  upsert-cons msg m ms = go (str_eq m.id msg.id) (replace_first msg ms)
    where
      go :
          (b : Bool) (o : Option (List (Message J)))
          → elim (if b
              then some (msg ∷ ms)
              else elim o [ none ↦ none | some rest ↦ some (m ∷ rest) ]) [
                | some replaced ↦ replaced
                | none ↦ m ∷ ms ++ msg ∷ []
              ]
            ≡ (if b
                then msg ∷ ms
                else m ∷ elim o [ some replaced ↦ replaced | none ↦ ms ++ msg ∷ [] ])
      go true o = refl
      go false none = refl
      go false (some rest) = refl

  find_message-upsert :
      (id : String) (msg : Message J) (ms : List (Message J))
      → find_message id (upsert msg ms)
        ≡ (if str_eq msg.id id then some msg else find_message id ms)
  unfolding find_message replace_first
  find_message-upsert id msg [] = refl
  find_message-upsert id msg (m ∷ ms) =
      ap (find_message id) (upsert-cons msg m ms)
      ∙ ground (
        arith,
        eq_iff m.id msg.id,
        eq_iff m.id id,
        eq_iff msg.id id,
        find_message-upsert id msg ms,
      )

  find_message-receive :
      (id : String) (current : List (Message J)) (msg : Message J)
      → find_message id (receive current msg) ≡ held_after id (find_message id current) msg
  unfolding receive find_message
  find_message-receive id current msg =
      ground (
        arith,
        find_message-filter id (target_id msg.id) current,
        find_message-upsert id msg current,
      )

  -- After the reducer, each id holds what the incoming messages leave under it, one by one: a removal
  -- of everything or of this id leaves nothing, a message with this id itself, any other no change.
  pub find_message-messages_reducer :
      (id : String) (current incoming : List (Message J))
      → find_message id (messages_reducer current incoming)
        ≡ held_after_all id (find_message id current) incoming
  unfolding messages_reducer held_after_all
  find_message-messages_reducer id current [] = refl
  find_message-messages_reducer id current (msg ∷ incoming) =
      find_message-messages_reducer id (receive current msg) incoming
      ∙ ap (λ (o : Option (Message J)). held_after_all id o incoming)
          (find_message-receive id current msg)

  abbrev pub HasUniqueIds : List (Message J) → Type 0
  HasUniqueIds [] = Unit
  HasUniqueIds (m ∷ ms) = (find_message m.id ms ≡ none) × HasUniqueIds ms

  filter-HasUniqueIds :
      (target : String) (ms : List (Message J))
      → HasUniqueIds ms
      → HasUniqueIds (filter (λ m. not (str_eq m.id target)) ms)
  filter-HasUniqueIds target [] u = tt
  filter-HasUniqueIds target (m ∷ ms) u =
      go (str_eq m.id target) (find_message-filter m.id target ms)
        (filter-HasUniqueIds target ms u.1)
    where
      go :
          (b : Bool)
          → find_message m.id (filter (λ m. not (str_eq m.id target)) ms)
            ≡ (if b then none else find_message m.id ms)
          → HasUniqueIds (filter (λ m. not (str_eq m.id target)) ms)
          → HasUniqueIds (
              if not b
              then m ∷ filter (λ m. not (str_eq m.id target)) ms
              else filter (λ m. not (str_eq m.id target)) ms)
      go true e rest = rest
      go false e rest = (e ∙ u.0, rest)

  upsert-HasUniqueIds :
      (msg : Message J) (ms : List (Message J)) → HasUniqueIds ms → HasUniqueIds (upsert msg ms)
  unfolding replace_first find_message
  upsert-HasUniqueIds msg [] u = (refl, tt)
  upsert-HasUniqueIds msg (m ∷ ms) u =
      subst⁻¹ HasUniqueIds (upsert-cons msg m ms) (elim (Bool-cases (str_eq m.id msg.id)) [
        | inl e ↦
            let same : m.id ≡ msg.id = ground (arith, eq_iff m.id msg.id) in
            rw e (ap (λ (i : String). find_message i ms) (sym same) ∙ u.0, u.1)
        | inr e ↦ rw e (
          find_message-upsert m.id msg ms ∙ ground (arith, eq_iff m.id msg.id, eq_iff msg.id m.id),
          upsert-HasUniqueIds msg ms u.1,
        )
      ])

  receive-HasUniqueIds :
      (current : List (Message J)) (msg : Message J)
      → HasUniqueIds current
      → HasUniqueIds (receive current msg)
  unfolding receive
  receive-HasUniqueIds current msg u = go (str_eq msg.id remove_all_messages) (is_removal msg.id)
    where
      go :
          (b c : Bool)
          → HasUniqueIds (
              if b
              then []
              else if c
              then filter (λ m. not (str_eq m.id (target_id msg.id))) current
              else upsert msg current)
      go true c = tt
      go false true = filter-HasUniqueIds (target_id msg.id) current u
      go false false = upsert-HasUniqueIds msg current u

  -- The reducer never lets two messages have one id, if no two had one before.
  pub messages_reducer-HasUniqueIds :
      (current incoming : List (Message J))
      → HasUniqueIds current
      → HasUniqueIds (messages_reducer current incoming)
  unfolding messages_reducer
  messages_reducer-HasUniqueIds current [] u = u
  messages_reducer-HasUniqueIds current (msg ∷ incoming) u =
      messages_reducer-HasUniqueIds (receive current msg) incoming
        (receive-HasUniqueIds current msg u)

  -- The message of `remove` takes away every message with the id, and leaves every other id alone.
  pub messages_reducer-remove :
      (id other : String) (current : List (Message J))
      → find_message other (messages_reducer current (remove id ∷ []))
        ≡ (if str_eq other id then none else find_message other current)
  unfolding remove held_after_all
  messages_reducer-remove id other current =
      find_message-messages_reducer other current (remove id ∷ [])
      ∙ ground (arith, removal_of id, not_all id)
