-- ===== src/Graph/Builder.antt =====
-- crates/juncture-core/src/graph/builder.rs: `StateGraph`, its compilation and the trigger table
-- that the scheduler reads. Of the map `nodes` only the keys are kept, and of a node's metadata
-- only its circuit breaker and its fallback; subgraphs and cache policies are left out. `add_node`
-- stands for its variants that differ in the metadata that is left out.
pub mod Entering
pub mod Building
pub mod Compiled
use juncture.Prelude.{
  ℕ, zero, suc, ◌+◌, String, Bool, false, ◌||◌, Option, none, some, List, [], ◌∷◌, ◌++◌, map,
  str_eq, leb, if◌then◌else◌, Map, insert, contains,
}
use Prim.Native.String.{slice, len}
use juncture.Prelude.Result.{Result, ok, err, ◌>>=◌}
use juncture.State.Fields.{State}
use juncture.Pregel.Types.{
  JunctureError, RouteResult, start_node, end_node, TriggerTable, TriggerSource, edge, CompiledEdge,
  add_outgoing, add_incoming,
}
use juncture.Pregel.Types as Types
use juncture.Graph.Breaker.{CircuitBreakerConfig}
use juncture.Graph.Topology.{
  TopologyError, duplicate_node, invalid_node_name, node_not_found, invalid_field_reference, Edge,
  fixed, conditional,
}
use juncture.Graph.Topology.Validate.{Checked, then_check, validate}

pub record NodeMetadata : Type 0 where
  pub circuit_breaker : Option CircuitBreakerConfig
  pub fallback_node : Option String

abbrev pub default_metadata : NodeMetadata
default_metadata = record { circuit_breaker = none; fallback_node = none }

pub record StateGraph (S : Type 0) : Type 0 where
  pub nodes : List String
  pub edges : List (Edge S)
  pub entry_point : Option String
  pub finish_points : List String
  pub builder_metadata : Map NodeMetadata

-- Some character of the name from `i` on is `c`, with `n` bytes left to look at.
unfoldable pub has_char : String → String → ℕ → ℕ → Bool
has_char c name i zero = false
has_char c name i (suc n) = str_eq (slice name i (i + 1)) c || has_char c name (i + 1) n

abbrev pub contains_char : String → String → Bool
contains_char name c = has_char c name 0 (len name)

unfoldable pub check_names : List String → Result TopologyError Checked
check_names [] = ok tt
check_names (name ∷ names) =
    let rest = check_names names in
    if str_eq name ""
    then err (invalid_node_name name "node name cannot be empty")
    else (if contains_char name ":" || contains_char name "/" || contains_char name "\\"
        then err (invalid_node_name name "node name cannot contain ':', '/', or '\\'")
        else rest)

unfoldable pub check_registered : List String → List String → Result TopologyError Checked
check_registered nodes [] = ok tt
check_registered nodes (name ∷ names) =
    let rest = check_registered nodes names in
    if contains name nodes then rest else err (node_not_found name)

-- An index of the state type out of its range.
unfoldable pub check_indices : ℕ → List String → String → List ℕ → Result TopologyError Checked
check_indices field_count field_names context [] = ok tt
check_indices field_count field_names context (idx ∷ indices) =
    let rest = check_indices field_count field_names context indices in
    if leb field_count idx
    then err (invalid_field_reference idx field_count field_names context)
    else rest

module _ {S : Type 0} where
  abbrev pub new_graph : StateGraph S
  new_graph = record {
    nodes = [];
    edges = [];
    entry_point = none;
    finish_points = [];
    builder_metadata = [];
  }

  unfoldable pub add_node :
      String → NodeMetadata → StateGraph S → Result TopologyError (StateGraph S)
  add_node name metadata g =
      if contains name g.nodes
      then err (duplicate_node name)
      else ok (record g {
        nodes = g.nodes ++ name ∷ [];
        builder_metadata = insert name metadata g.builder_metadata;
      })

  unfoldable pub add_edge : String → String → StateGraph S → StateGraph S
  add_edge from to g = record g { edges = g.edges ++ fixed from to ∷ [] }

  unfoldable pub add_conditional_edges :
      String → (S → Result JunctureError RouteResult) → Map String → StateGraph S → StateGraph S
  add_conditional_edges from router path_map g = record g {
    edges = g.edges ++ conditional from router path_map ∷ [];
  }

  unfoldable pub set_entry_point : String → StateGraph S → StateGraph S
  set_entry_point node g = record g {
    entry_point = some node;
    edges = g.edges ++ fixed start_node node ∷ [];
  }

  unfoldable pub set_finish_point : String → StateGraph S → StateGraph S
  set_finish_point node g = record g {
    finish_points = g.finish_points ++ node ∷ [];
    edges = g.edges ++ fixed node end_node ∷ [];
  }

  -- The edges of `windows(2)`, after the node `from`.
  unfoldable pub add_windows : String → List String → StateGraph S → StateGraph S
  add_windows from [] g = g
  add_windows from (to ∷ names) g = add_windows to names (add_edge from to g)

  unfoldable pub add_sequence : List String → StateGraph S → Result TopologyError (StateGraph S)
  add_sequence [] g = ok g
  add_sequence (first ∷ names) g = check_registered g.nodes (first ∷ names) >>= (λ _. ok (
      add_windows first names
        (elim g.entry_point [ none ↦ set_entry_point first g | some entry ↦ g ])))

  -- `add_incoming` for each target of a conditional edge.
  unfoldable pub add_targets : String → Map String → TriggerTable S → TriggerTable S
  add_targets from [] table = table
  add_targets from ((branch, target) ∷ rest) table =
      add_targets from rest (add_incoming table target (edge from))

  unfoldable pub compile_edge : Edge S → TriggerTable S → TriggerTable S
  compile_edge (fixed from to) table =
      if str_eq from start_node
      then add_incoming table to (edge from)
      else (if str_eq to end_node
          then table
          else add_incoming (add_outgoing table from (Types.fixed to)) to (edge from))
  compile_edge (conditional from router path_map) table =
      if str_eq from start_node
      then add_targets from path_map table
      else add_targets from path_map (add_outgoing table from (Types.conditional router path_map))

  unfoldable pub compile_edges : List (Edge S) → TriggerTable S → TriggerTable S
  compile_edges [] table = table
  compile_edges (e ∷ edges) table = compile_edges edges (compile_edge e table)

  unfoldable pub build_trigger_table : StateGraph S → TriggerTable S
  build_trigger_table g = compile_edges g.edges (record { outgoing = []; incoming = [] })

abbrev pub fallbacks_of : Map NodeMetadata → Map (Option String)
fallbacks_of metadata = map (λ entry. (entry.0, entry.1.fallback_node)) metadata

-- `CompiledGraph`, as far as compilation fills it from what is modelled.
pub record CompiledGraph (S : Type 0) : Type 0 where
  pub nodes : List String
  pub trigger_table : TriggerTable S
  pub builder_metadata : Map NodeMetadata
  pub interrupt_before : List String
  pub interrupt_after : List String

module _ {S U : Type 0} (ops : State S U) (field_names : List String) where
  unfoldable pub validate_keys : StateGraph S → Result TopologyError Checked
  validate_keys g =
      check_names g.nodes
      >>= (λ _.
          check_registered g.nodes (elim g.entry_point [ none ↦ [] | some entry ↦ entry ∷ [] ]))
      >>= (λ _. check_registered g.nodes g.finish_points)
      >>= (λ _.
          check_indices ops.field_count field_names "replace_field_indices"
            ops.replace_field_indices)
      >>= (λ _.
          check_indices ops.field_count field_names "replace_after_finish_field_indices"
            ops.replace_after_finish_field_indices)

  -- `none` is a validation that does not end.
  unfoldable pub compile_inner :
      List String → List String → StateGraph S → Option (Result TopologyError (CompiledGraph S))
  compile_inner interrupt_before interrupt_after g =
      elim (validate g.nodes g.edges g.entry_point (fallbacks_of g.builder_metadata)) [
        | none ↦ none
        | some (err e) ↦ some (err e)
        | some (ok _) ↦ some (
            validate_keys g >>= (λ _. ok (record {
              nodes = g.nodes;
              trigger_table = build_trigger_table g;
              builder_metadata = g.builder_metadata;
              interrupt_before = interrupt_before;
              interrupt_after = interrupt_after;
            })))
      ]
