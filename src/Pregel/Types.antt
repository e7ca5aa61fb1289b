-- ===== src/Pregel/Types.antt =====
-- crates/juncture-core/src/pregel/types.rs, command.rs, edge/types.rs and edge/compiled.rs: the
-- data that the engine passes around. `S` is the user's state, `U` its update type, and `J` the
-- JSON value type of serde. Durations, stream data and resume values are not read here and are
-- left out.
use juncture.Prelude.{
  ℕ, String, Bool, true, false, Option, none, some, List, [], ◌∷◌, ◌++◌, Map, lookup, insert,
}
use Prim.Native.String.{◌++◌ as concat}
use juncture.Prelude.Result.{Result}

-- The errors that the modelled parts raise, by kind.
pub data JunctureError : Type 0 where
  multiple_writers : ℕ → List String → JunctureError
  invalid_update : String → JunctureError
  execution : String → JunctureError
  recursion_limit : ℕ → ℕ → JunctureError
  checkpoint_failure : String → JunctureError
  interrupted : ℕ → JunctureError
  missing_resume_value : List String → JunctureError

-- The error of a router whose answer names no node.
abbrev pub routed_to_unknown : String → String → JunctureError
routed_to_unknown from_node label = execution (
    concat "Conditional edge from '" (
      concat from_node (
        concat "' routed to '"
          (concat label "', which is neither a path_map key nor a registered node"))))

abbrev pub start_node : String
start_node = "__start__"

abbrev pub end_node : String
end_node = "__end__"

pub data TaskTrigger : Type 0 where
  pull : TaskTrigger
  push : ℕ → TaskTrigger

unfoldable pub is_pull : TaskTrigger → Bool
is_pull pull = true
is_pull (push index) = false

unfoldable pub is_push : TaskTrigger → Bool
is_push pull = false
is_push (push index) = true

pub record PendingTask (S J : Type 0) : Type 0 where
  pub id : String
  pub node_name : String
  pub trigger : TaskTrigger
  pub state_override : Option S
  pub state_json : Option J
  pub triggered_fields : List ℕ

module _ {S J : Type 0} where
  -- `PendingTask::pull`
  abbrev pub pull_task : String → String → PendingTask S J
  pull_task id node_name = record {
    id = id;
    node_name = node_name;
    trigger = pull;
    state_override = none;
    state_json = none;
    triggered_fields = [];
  }

  -- `PendingTask::push`
  abbrev pub push_task : String → String → ℕ → J → PendingTask S J
  push_task id node_name index state_json = record {
    id = id;
    node_name = node_name;
    trigger = push index;
    state_override = none;
    state_json = some state_json;
    triggered_fields = [];
  }

pub record SendTarget (J : Type 0) : Type 0 where
  pub node : String
  pub state : J

pub data Goto (J : Type 0) : Type 0 where
  stay : Goto J
  next : String → Goto J
  multiple : List String → Goto J
  send : List (SendTarget J) → Goto J
  end : Goto J

pub record Command (U J : Type 0) : Type 0 where
  pub update : Option U
  pub goto : Goto J

pub record TaskOutput (U J : Type 0) : Type 0 where
  pub task_id : String
  pub node_name : String
  pub command : Command U J
  pub trigger : TaskTrigger
  pub triggered_fields : List ℕ
  pub error : Option JunctureError
  pub circuit_blocked : Bool

pub data RouteResult : Type 0 where
  one : String → RouteResult
  many : List String → RouteResult

-- `RouteResult::targets`
unfoldable pub targets : RouteResult → List String
targets (one target) = target ∷ []
targets (many names) = names

unfoldable pub as_target : RouteResult → Option String
as_target (one target) = some target
as_target (many names) = none

-- `PathMap` wraps a map of strings. The router is the user's function.
pub data CompiledEdge (S : Type 0) : Type 0 where
  fixed : String → CompiledEdge S
  conditional : (S → Result JunctureError RouteResult) → Map String → CompiledEdge S

pub data TriggerSource : Type 0 where
  edge : String → TriggerSource
  send_from : String → TriggerSource

pub record TriggerTable (S : Type 0) : Type 0 where
  pub outgoing : Map (List (CompiledEdge S))
  pub incoming : Map (List TriggerSource)

-- `map.entry(key).or_default().push(value)`
unfoldable pub push_entry {ℓ} : {V : Type ℓ} → String → V → Map (List V) → Map (List V)
push_entry key value m =
    insert key (elim (lookup key m) [ none ↦ value ∷ [] | some values ↦ values ++ value ∷ [] ]) m

module _ {S : Type 0} where
  unfoldable pub add_outgoing : TriggerTable S → String → CompiledEdge S → TriggerTable S
  unfolding push_entry
  add_outgoing t from e = record t { outgoing = push_entry from e t.outgoing }

  unfoldable pub add_incoming : TriggerTable S → String → TriggerSource → TriggerTable S
  unfolding push_entry
  add_incoming t to source = record t { incoming = push_entry to source t.incoming }

-- `LoopStatus`; the two interrupts carry their signals, of a type `I`.
pub data LoopStatus (I : Type 0) : Type 0 where
  running done out_of_steps budget_exceeded cancelled drained : LoopStatus I
  interrupt_before interrupt_after : List I → LoopStatus I

module _ {I : Type 0} where
  unfoldable pub is_running : LoopStatus I → Bool
  is_running running = true
  is_running _ = false

  unfoldable pub is_terminal : LoopStatus I → Bool
  is_terminal done = true
  is_terminal out_of_steps = true
  is_terminal budget_exceeded = true
  is_terminal cancelled = true
  is_terminal drained = true
  is_terminal _ = false

  unfoldable pub is_interrupted : LoopStatus I → Bool
  is_interrupted (interrupt_before signals) = true
  is_interrupted (interrupt_after signals) = true
  is_interrupted _ = false

  unfoldable pub interrupt_signals : LoopStatus I → List I
  interrupt_signals (interrupt_before signals) = signals
  interrupt_signals (interrupt_after signals) = signals
  interrupt_signals _ = []
