-- ===== src/Graph/BuilderTests.antt =====
-- A graph that is built and compiled: `a` is the entry point and goes to `b`, which may go back.
use juncture.Prelude.{
  ℕ, ◌+◌, String, ◌≡◌, refl, true, false, some, List, [], ◌∷◌, any, Map, lookup, insert,
  contains_key, contains,
}
use juncture.Prelude.Result.{Result, ok}
use juncture.State.Fields.{State}
use juncture.Pregel.Types.{
  JunctureError, RouteResult, one, push_entry, add_incoming, add_outgoing, end_node,
}
use juncture.Graph.Topology.{fixed, conditional}
use juncture.Graph.Topology as Topology
use juncture.Graph.Topology.Tarjan as Tarjan
use juncture.Graph.Topology.Validate as Validate
use juncture.Graph.Builder as Builder
use juncture.Graph.Topology.Checks.{known}
use juncture.Graph.Builder.{
  StateGraph, default_metadata, new_graph, CompiledGraph, compile_inner, build_trigger_table,
}
use juncture.Graph.Builder.Entering.{initial_nodes, starts_at, initial_nodes-build_trigger_table}
use juncture.Graph.Builder.Building.{Call, node, conditional_edges, entry, build, apply_call}
use juncture.Graph.Builder.Building as Building
use juncture.Graph.Builder.Compiled.{compile_inner-initial_nodes}

abbrev ops : State ℕ ℕ
ops = record {
  try_apply = λ s u. (s + u, ok (record { mask = 1 }));
  field_is_set = λ u i. false;
  replace_field_indices = 0 ∷ [];
  finish_field = λ s i. s;
  replace_after_finish_field_indices = [];
  consume_field = λ s i. s;
  field_count = 1;
  reset_ephemeral = λ s. s;
}

abbrev route : ℕ → Result JunctureError RouteResult
route s = ok (one "more")

abbrev paths : Map String
paths = ("more", "a") ∷ ("done", "__end__") ∷ []

abbrev calls : List (Call ℕ)
calls =
    node "a" default_metadata
    ∷ node "b" default_metadata
    ∷ entry "a"
    ∷ Building.edge "a" "b"
    ∷ conditional_edges "b" route paths
    ∷ []

abbrev built : StateGraph ℕ
built = record {
  nodes = "a" ∷ "b" ∷ [];
  edges = fixed "__start__" "a" ∷ fixed "a" "b" ∷ conditional "b" route paths ∷ [];
  entry_point = some "a";
  finish_points = [];
  builder_metadata = ("a", default_metadata) ∷ ("b", default_metadata) ∷ [];
}

abbrev compiled : CompiledGraph ℕ
compiled = record {
  nodes = "a" ∷ "b" ∷ [];
  trigger_table = build_trigger_table built;
  builder_metadata = ("a", default_metadata) ∷ ("b", default_metadata) ∷ [];
  interrupt_before = [];
  interrupt_after = "b" ∷ [];
}

builds : build calls new_graph ≡ ok built
unfolding build apply_call Builder.add_node Builder.add_conditional_edges Builder.add_edge
    Builder.set_entry_point insert
builds = refl

compiles : compile_inner ops ("count" ∷ []) [] ("b" ∷ []) built ≡ some (ok compiled)
unfolding compile_inner Validate.validate lookup insert juncture.Prelude.contains_key add_incoming
    add_outgoing push_entry Topology.check_entry_point Topology.check_edge_targets
    Topology.check_edge Topology.check_endpoint Topology.check_path_map Topology.check_reachability
    Topology.search Topology.enough_fuel Topology.visit_all Topology.build_adjacency
    Topology.add_fallbacks Topology.add_edges Topology.add_edge Topology.push_targets
    Topology.add_incoming Topology.add_outgoing Topology.add_path_targets Topology.all_neighbors
    Topology.check_isolated_nodes Topology.first_isolated Topology.first_unreachable Topology.touch
    Topology.touch_all Topology.touch_targets Topology.visit_neighbor Builder.add_targets
    Builder.build_trigger_table Builder.check_indices Builder.check_names Builder.check_registered
    Builder.compile_edge Builder.compile_edges Builder.has_char Builder.validate_keys
    Tarjan.add_cycle_edge Tarjan.add_cycle_edges Tarjan.check_infinite_loops Tarjan.check_sccs
    Tarjan.cycle_adjacency Tarjan.enter Tarjan.exits_to Tarjan.find_sccs Tarjan.has_exit
    Tarjan.is_exit Tarjan.leave Tarjan.lower Tarjan.pop_scc Tarjan.relax Tarjan.remove
    Tarjan.same_index Tarjan.visit Tarjan.visit_neighbors Tarjan.visit_nodes
compiles = refl

abbrev uuid : ℕ → String
uuid n = "id"

initial_nodes-build_trigger_table_example :
    contains "a" (initial_nodes ℕ String uuid (build_trigger_table built))
    ≡ any (starts_at "a") built.edges
initial_nodes-build_trigger_table_example =
    initial_nodes-build_trigger_table ℕ String uuid built "a"

compile_inner-initial_nodes_example :
    ((n : String) × (built.entry_point ≡ some n)
      × (contains n compiled.nodes ≡ true)
      × (contains n (initial_nodes ℕ String uuid compiled.trigger_table) ≡ true))
    × ((m : String)
        → contains m (initial_nodes ℕ String uuid compiled.trigger_table) ≡ true
        → known compiled.nodes end_node m ≡ true)
compile_inner-initial_nodes_example =
    compile_inner-initial_nodes ops ("count" ∷ []) String uuid [] ("b" ∷ []) calls built compiled
      builds compiles
