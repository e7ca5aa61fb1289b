-- ===== src/Pregel/Interrupts.antt =====
-- crates/juncture-core/src/interrupt/mod.rs: interrupt signals, the test for an interrupt between
-- supersteps, and the scratchpad. Timestamps are left out. `J` is the JSON value type:
-- `interrupt_id` stands for `generate_interrupt_id`, whose hash is a library's, and
-- `payload node reason` for the value of the `json!` macro.
pub mod Gating
pub mod Resuming
pub mod Context
use juncture.Prelude.{
  ℕ, ◌-◌, String, Bool, true, false, not, ◌&&◌, ◌||◌, Option, none, some, List, [], ◌∷◌, ◌++◌,
  str_eq, ltb, leb, if◌then◌else◌, length, is_empty, any, filter, Map, lookup, insert, contains_key,
  contains, add,
}
use Prim.Native.String.{slice, len}
use package.text.Mathlib.Text.{starts_with}
use juncture.Prelude.Result.{Result, ok, err}
use juncture.Pregel.Types.{JunctureError, missing_resume_value, PendingTask}

pub record InterruptSignal (J : Type 0) : Type 0 where
  pub index : ℕ
  pub id : Option String
  pub payload : J

abbrev pub hidden_tag : String
hidden_tag = "__hidden__"

abbrev pub ends_with : String → String → Bool
ends_with s t = leb (len t) (len s) && str_eq (slice s (len s - len t) (len s)) t

unfoldable pub is_hidden_node : String → List String → Bool
is_hidden_node node_name tags =
    (starts_with node_name "__" && ends_with node_name "__" && ltb 4 (len node_name))
    || any (λ tag. str_eq tag hidden_tag) tags

-- Some channel is newer than at the last interrupt.
unfoldable pub any_updates : Map ℕ → Map ℕ → Bool
any_updates [] versions_seen = false
any_updates ((chan, ver) ∷ rest) versions_seen =
    ltb (elim (lookup chan versions_seen) [ none ↦ 0 | some seen ↦ seen ]) ver
    || any_updates rest versions_seen

module _ {J : Type 0} (interrupt_id : String → ℕ → String) (payload : String → String → J) where
  unfoldable pub push_signal : String → String → List (InterruptSignal J) → List (InterruptSignal J)
  push_signal node_name reason signals =
      signals
      ++ record {
        index = length signals;
        id = some (interrupt_id node_name (length signals));
        payload = payload node_name reason;
      }
        ∷ []

  -- The loop over the pending tasks.
  unfoldable pub add_signals :
      {S : Type 0}
      → List (PendingTask S J)
      → List String
      → List String
      → List (InterruptSignal J)
      → List (InterruptSignal J)
  add_signals [] interrupt_before interrupt_after signals = signals
  add_signals (task ∷ tasks) interrupt_before interrupt_after signals =
      elim (is_hidden_node task.node_name []) [
        | true ↦ add_signals tasks interrupt_before interrupt_after signals
        | false ↦
            let before =
              if contains task.node_name interrupt_before
              then push_signal task.node_name "interrupt_before" signals
              else signals in
            add_signals tasks interrupt_before interrupt_after (
              if contains task.node_name interrupt_after
              then push_signal task.node_name "interrupt_after" before
              else before)
      ]

  unfoldable pub should_interrupt :
      {S : Type 0}
      → List (PendingTask S J)
      → List String
      → List String
      → Map ℕ
      → Map ℕ
      → Option (List (InterruptSignal J))
  should_interrupt pending_tasks interrupt_before interrupt_after channel_versions versions_seen =
      let signals = add_signals pending_tasks interrupt_before interrupt_after [] in
      if not (any_updates channel_versions versions_seen) && not (is_empty versions_seen)
      then none
      else (if is_empty signals then none else some signals)

-- The ids that no value covers.
unfoldable pub uncovered : {J : Type 0} → List (InterruptSignal J) → Map J → List String
uncovered [] resume_values = []
uncovered (signal ∷ pending) resume_values =
    let rest = uncovered pending resume_values in
    elim signal.id [
      | none ↦ rest
      | some id ↦ if contains_key id resume_values then rest else id ∷ rest
    ]

unfoldable pub validate_resume_coverage :
    {J : Type 0} → List (InterruptSignal J) → Map J → Result JunctureError (Unit {0})
validate_resume_coverage pending resume_values =
    let ids = uncovered pending resume_values in
    if is_empty ids then ok tt else err (missing_resume_value ids)

pub record InterruptRecord (J : Type 0) : Type 0 where
  pub id : String
  pub node : String
  pub payload : J
  pub resume_value : Option J

pub record Scratchpad (J : Type 0) : Type 0 where
  pub processed_interrupts : List String
  pub transient : Map J
  pub interrupt_history : List (InterruptRecord J)

module _ {J : Type 0} where
  abbrev pub new_scratchpad : Scratchpad J
  new_scratchpad = record { processed_interrupts = []; transient = []; interrupt_history = [] }

  unfoldable pub is_interrupt_processed : Scratchpad J → String → Bool
  is_interrupt_processed pad id = contains id pad.processed_interrupts

  unfoldable pub get_null_resume : Scratchpad J → String → Bool
  get_null_resume pad interrupt_id = is_interrupt_processed pad interrupt_id

  unfoldable pub mark_interrupt_processed : Scratchpad J → String → Scratchpad J
  mark_interrupt_processed pad id = record pad {
    processed_interrupts = add id pad.processed_interrupts;
  }

  unfoldable pub get_data : Scratchpad J → String → Option J
  get_data pad key = lookup key pad.transient

  unfoldable pub set_data : Scratchpad J → String → J → Scratchpad J
  set_data pad key value = record pad { transient = insert key value pad.transient }

  unfoldable pub record_interrupt : Scratchpad J → String → String → J → Scratchpad J
  record_interrupt pad id node payload = record pad {
    interrupt_history =
        pad.interrupt_history
        ++ record { id = id; node = node; payload = payload; resume_value = none } ∷ [];
  }

  -- The record that `find` gives is changed in place.
  unfoldable pub resume_first : String → J → List (InterruptRecord J) → List (InterruptRecord J)
  resume_first id value [] = []
  resume_first id value (r ∷ records) =
      let later = r ∷ resume_first id value records in
      if str_eq r.id id then record r { resume_value = some value } ∷ records else later

  unfoldable pub record_resume : Scratchpad J → String → J → Scratchpad J
  record_resume pad id value = record pad {
    interrupt_history = resume_first id value pad.interrupt_history;
  }

  unfoldable pub clear_transient : Scratchpad J → Scratchpad J
  clear_transient pad = record pad {
    transient = filter (λ entry. starts_with entry.0 "null_resume:") pad.transient;
  }
