-- ===== src/Graph/Topology.antt =====
-- crates/juncture-core/src/graph/topology.rs and edge/types.rs: the checks that a graph passes
-- before it is compiled. Of the map `nodes` only its keys are read, and of the builder's metadata
-- only each node's `fallback_node`. A `HashSet` of names is a list of which only membership is
-- read. The search for cycles is in Topology/Tarjan.antt.
pub mod Tarjan
pub mod Links
pub mod Search
pub mod Checks
pub mod Validate
use juncture.Prelude.{
  ℕ, zero, suc, String, not, ◌&&◌, Option, none, some, List, [], ◌∷◌, ◌++◌, str_eq, if◌then◌else◌,
  length, Map, lookup, insert, keys, or_empty, contains, add,
}
use juncture.Prelude.Result.{Result, ok, err, ◌>>=◌}
use juncture.Pregel.Types.{JunctureError, RouteResult, start_node, end_node, push_entry}

pub data TopologyError : Type 0 where
  duplicate_node : String → TopologyError
  invalid_node_name : String → String → TopologyError
  no_entry_point : TopologyError
  node_not_found : String → TopologyError
  edge_target_not_found : String → String → String → TopologyError
  isolated_node : String → TopologyError
  unreachable_node : String → TopologyError
  potential_infinite_loop : List String → TopologyError
  invalid_field_reference : ℕ → ℕ → List String → String → TopologyError

-- `PathMap` wraps a map of strings. The router is the user's function.
pub data Edge (S : Type 0) : Type 0 where
  fixed : String → String → Edge S
  conditional : String → (S → Result JunctureError RouteResult) → Map String → Edge S

abbrev pub Adjacency : Type 0
Adjacency = Map (List String)

abbrev pub neighbors : Adjacency → String → List String
neighbors adjacency node = or_empty (lookup node adjacency)

-- `adjacency.entry(key).or_default()`
unfoldable pub touch : String → Adjacency → Adjacency
touch key adjacency = insert key (or_empty (lookup key adjacency)) adjacency

unfoldable pub touch_all : List String → Adjacency → Adjacency
touch_all [] adjacency = adjacency
touch_all (key ∷ keys) adjacency = touch_all keys (touch key adjacency)

unfoldable pub touch_targets : Map String → Adjacency → Adjacency
touch_targets [] adjacency = adjacency
touch_targets ((branch, target) ∷ rest) adjacency = touch_targets rest (touch target adjacency)

-- The loop that pushes every target but the end.
unfoldable pub push_targets : String → Map String → Adjacency → Adjacency
push_targets from [] adjacency = adjacency
push_targets from ((branch, target) ∷ rest) adjacency =
    push_targets from rest
      (if str_eq target end_node then adjacency else push_entry from target adjacency)

unfoldable pub check_entry_point : Option String → Result TopologyError Unit
check_entry_point none = err no_entry_point
check_entry_point (some entry) = ok tt

unfoldable pub check_endpoint :
    List String → String → String → TopologyError → Result TopologyError Unit
check_endpoint nodes marker name e =
    if not (str_eq name marker) && not (contains name nodes) then err e else ok tt

unfoldable pub check_path_map : List String → String → Map String → Result TopologyError Unit
check_path_map nodes from [] = ok tt
check_path_map nodes from ((branch, target) ∷ rest) =
    check_endpoint nodes end_node target (edge_target_not_found from branch target)
    >>= (λ _. check_path_map nodes from rest)

module _ {S : Type 0} where
  unfoldable pub check_edge : List String → Edge S → Result TopologyError Unit
  check_edge nodes (fixed from to) =
      check_endpoint nodes start_node from (node_not_found from)
      >>= (λ _. check_endpoint nodes end_node to (node_not_found to))
  check_edge nodes (conditional from router path_map) =
      check_endpoint nodes start_node from (node_not_found from)
      >>= (λ _. check_path_map nodes from path_map)

  unfoldable pub check_edge_targets : List String → List (Edge S) → Result TopologyError Unit
  check_edge_targets nodes [] = ok tt
  check_edge_targets nodes (edge ∷ edges) =
      check_edge nodes edge >>= (λ _. check_edge_targets nodes edges)

  unfoldable pub add_edge : Edge S → Adjacency → Adjacency
  add_edge (fixed from to) adjacency =
      if str_eq from start_node
      then touch to adjacency
      else (if str_eq to end_node then adjacency else push_entry from to adjacency)
  add_edge (conditional from router path_map) adjacency =
      if str_eq from start_node
      then touch_targets path_map adjacency
      else push_targets from path_map (touch from adjacency)

  unfoldable pub add_edges : List (Edge S) → Adjacency → Adjacency
  add_edges [] adjacency = adjacency
  add_edges (edge ∷ edges) adjacency = add_edges edges (add_edge edge adjacency)

unfoldable pub add_fallbacks : Map (Option String) → Adjacency → Adjacency
add_fallbacks [] adjacency = adjacency
add_fallbacks ((node, none) ∷ rest) adjacency = add_fallbacks rest adjacency
add_fallbacks ((node, some fallback) ∷ rest) adjacency =
    add_fallbacks rest (push_entry node fallback adjacency)

unfoldable pub build_adjacency :
    {S : Type 0} → List String → List (Edge S) → Map (Option String) → Adjacency
build_adjacency nodes edges fallbacks =
    add_fallbacks fallbacks (add_edges edges (touch_all nodes []))

-- The two variables of the breadth-first search.
pub record Bfs : Type 0 where
  pub visited : List String
  pub queue : List String

-- `if visited.insert(neighbor) { queue.push_back(neighbor) }`
unfoldable pub visit_neighbor : String → Bfs → Bfs
visit_neighbor neighbor s =
    if contains neighbor s.visited
    then s
    else record { visited = add neighbor s.visited; queue = s.queue ++ neighbor ∷ [] }

unfoldable pub visit_all : List String → Bfs → Bfs
visit_all [] s = s
visit_all (neighbor ∷ rest) s = visit_all rest (visit_neighbor neighbor s)

-- The `while let` loop on fuel; `none` is a loop that is cut off.
unfoldable pub search : ℕ → Adjacency → List String → List String → Option (List String)
search fuel adjacency visited [] = some visited
search zero adjacency visited (current ∷ queue) = none
search (suc fuel) adjacency visited (current ∷ queue) =
    let s = visit_all (neighbors adjacency current) (record { visited = visited; queue = queue }) in
    search fuel adjacency s.visited s.queue

-- Every name that is a neighbor, once for each time it is one.
unfoldable pub all_neighbors : Adjacency → List String
all_neighbors [] = []
all_neighbors ((node, targets) ∷ rest) = targets ++ all_neighbors rest

-- The entry and every neighbor are popped at most once.
unfoldable pub enough_fuel : Adjacency → ℕ
enough_fuel adjacency = suc (length (all_neighbors adjacency))

unfoldable pub first_unreachable : List String → List String → Result TopologyError Unit
first_unreachable [] visited = ok tt
first_unreachable (node ∷ nodes) visited =
    if contains node visited then first_unreachable nodes visited else err (unreachable_node node)

module _ {S : Type 0} where
  -- `none` is a search that does not end.
  unfoldable pub check_reachability :
      List String
      → List (Edge S)
      → Option String
      → Map (Option String)
      → Option (Result TopologyError Unit)
  check_reachability nodes edges none fallbacks = some (err no_entry_point)
  check_reachability nodes edges (some entry) fallbacks =
      let adjacency = build_adjacency nodes edges fallbacks in
      elim (search (enough_fuel adjacency) adjacency (entry ∷ []) (entry ∷ [])) [
        | none ↦ none
        | some visited ↦ some (first_unreachable nodes visited)
      ]

-- `if name != marker { set.insert(name) }`
abbrev pub add_unless : String → String → List String → List String
add_unless marker name names = if str_eq name marker then names else add name names

unfoldable pub add_path_targets : Map String → List String → List String
add_path_targets [] names = names
add_path_targets ((branch, target) ∷ rest) names =
    add_path_targets rest (add_unless end_node target names)

-- The two sets of `check_isolated_nodes`, which its one loop over the edges fills.
module _ {S : Type 0} where
  unfoldable pub add_incoming : List (Edge S) → List String → List String
  add_incoming [] names = names
  add_incoming (fixed from to ∷ edges) names = add_incoming edges (add_unless end_node to names)
  add_incoming (conditional from router path_map ∷ edges) names =
      add_incoming edges (add_path_targets path_map names)

  unfoldable pub add_outgoing : List (Edge S) → List String → List String
  add_outgoing [] names = names
  add_outgoing (fixed from to ∷ edges) names = add_outgoing edges (add_unless start_node from names)
  add_outgoing (conditional from router path_map ∷ edges) names =
      add_outgoing edges (add_unless start_node from names)

unfoldable pub first_isolated : List String → List String → List String → Result TopologyError Unit
first_isolated [] has_incoming has_outgoing = ok tt
first_isolated (node ∷ nodes) has_incoming has_outgoing =
    if not (contains node has_incoming) && not (contains node has_outgoing)
    then err (isolated_node node)
    else first_isolated nodes has_incoming has_outgoing

unfoldable pub check_isolated_nodes :
    {S : Type 0} → List String → List (Edge S) → Result TopologyError Unit
check_isolated_nodes nodes edges =
    first_isolated nodes (add_incoming edges []) (add_outgoing edges [])
