-- ===== src/Graph/Topology/Tarjan.antt =====
-- crates/juncture-core/src/graph/topology.rs: Tarjan's search for the strongly connected
-- components, and the check for cycles without an exit. The vector `stack` is a list with its top
-- first. The recursion of `visit` is on fuel, and `none` is a search that is cut off.
pub mod Bounded
use juncture.Prelude.{
  ℕ, zero, suc, ◌+◌, min, String, Bool, true, false, not, ◌&&◌, ◌||◌, Option, none, some, List, [],
  ◌∷◌, ◌++◌, str_eq, leb, ◌==◌, if◌then◌else◌, length, any, filter, Map, lookup, insert,
  contains_key, contains, add,
}
use juncture.Prelude.Result.{Result, ok, err, ◌>>=◌}
use juncture.Pregel.Types.{start_node, end_node, push_entry}
use juncture.Graph.Topology.{
  TopologyError, potential_infinite_loop, Edge, fixed, conditional, Adjacency, neighbors, touch,
  touch_all, push_targets, all_neighbors,
}

pub record TarjanScc : Type 0 where
  pub index : ℕ
  pub stack : List String
  pub indices : Map ℕ
  pub lowlink : Map ℕ
  pub onstack : List String
  pub sccs : List (List String)

abbrev pub new : TarjanScc
new = record { index = 0; stack = []; indices = []; lowlink = []; onstack = []; sccs = [] }

-- `map.get(key).copied().unwrap_or(0)`
abbrev pub get_or_zero : String → Map ℕ → ℕ
get_or_zero key m = elim (lookup key m) [ none ↦ 0 | some n ↦ n ]

-- `lowlink.insert(node, low.min(other))`
unfoldable pub lower : String → ℕ → TarjanScc → TarjanScc
lower node other t = record t {
  lowlink = insert node (min (get_or_zero node t.lowlink) other) t.lowlink;
}

-- The entry of `visit`, which numbers the node and pushes it.
unfoldable pub enter : String → TarjanScc → TarjanScc
enter node t = record t {
  indices = insert node t.index t.indices;
  lowlink = insert node t.index t.lowlink;
  index = t.index + 1;
  stack = node ∷ t.stack;
  onstack = add node t.onstack;
}

-- `onstack.remove(name)`
unfoldable pub remove : String → List String → List String
remove name names = filter (λ n. not (str_eq n name)) names

-- The loop that pops the component of `node`.
unfoldable pub pop_scc :
    String → List String → List String → List String → List String × List String × List String
pop_scc node [] onstack scc = ([], onstack, scc)
pop_scc node (w ∷ stack) onstack scc = elim (str_eq w node) [
  | true ↦ (stack, remove w onstack, scc ++ w ∷ [])
  | false ↦ pop_scc node stack (remove w onstack) (scc ++ w ∷ [])
]

-- `lowlink.get(node) == indices.get(node)`
unfoldable pub same_index : Option ℕ → Option ℕ → Bool
same_index none none = true
same_index none (some b) = false
same_index (some a) none = false
same_index (some a) (some b) = a == b

-- The end of `visit`.
unfoldable pub leave : String → TarjanScc → TarjanScc
leave node t =
    let popped = pop_scc node t.stack t.onstack [] in
    if same_index (lookup node t.lowlink) (lookup node t.indices)
    then record t { stack = popped.0; onstack = popped.1; sccs = t.sccs ++ popped.2 ∷ [] }
    else t

-- The branch for a neighbor that has a number.
unfoldable pub relax : String → String → TarjanScc → TarjanScc
relax node neighbor t =
    if contains neighbor t.onstack then lower node (get_or_zero neighbor t.indices) t else t

-- The loop of `visit` over the neighbors, with the call of `visit` as `recur`.
unfoldable pub visit_neighbors :
    (String → TarjanScc → Option TarjanScc) → String → List String → TarjanScc → Option TarjanScc
visit_neighbors recur node [] t = some t
visit_neighbors recur node (neighbor ∷ rest) t = elim (contains_key neighbor t.indices) [
  | false ↦ elim (recur neighbor t) [
    | none ↦ none
    | some visited ↦
        visit_neighbors recur node rest (lower node (get_or_zero neighbor visited.lowlink) visited)
  ]
  | true ↦ visit_neighbors recur node rest (relax node neighbor t)
]

unfoldable pub visit : ℕ → Adjacency → String → TarjanScc → Option TarjanScc
visit zero adjacency node t = none
visit (suc fuel) adjacency node t =
    elim (visit_neighbors (visit fuel adjacency) node (neighbors adjacency node) (enter node t)) [
      | none ↦ none
      | some visited ↦ some (leave node visited)
    ]

unfoldable pub visit_nodes : ℕ → Adjacency → List String → TarjanScc → Option TarjanScc
visit_nodes fuel adjacency [] t = some t
visit_nodes fuel adjacency (node ∷ nodes) t = elim (contains_key node t.indices) [
  | true ↦ visit_nodes fuel adjacency nodes t
  | false ↦ elim (visit fuel adjacency node t) [
    | none ↦ none
    | some visited ↦ visit_nodes fuel adjacency nodes visited
  ]
]

unfoldable pub exits_to : List String → Map String → Bool
exits_to scc [] = false
exits_to scc ((branch, target) ∷ rest) =
    (str_eq target end_node || not (contains target scc)) || exits_to scc rest

module _ {S : Type 0} where
  unfoldable pub add_cycle_edge : Edge S → Adjacency → Adjacency
  add_cycle_edge (fixed from to) adjacency =
      if not (str_eq from start_node) && not (str_eq to end_node)
      then push_entry from to adjacency
      else adjacency
  add_cycle_edge (conditional from router path_map) adjacency =
      if str_eq from start_node
      then adjacency
      else push_targets from path_map (touch from adjacency)

  unfoldable pub add_cycle_edges : List (Edge S) → Adjacency → Adjacency
  add_cycle_edges [] adjacency = adjacency
  add_cycle_edges (edge ∷ edges) adjacency = add_cycle_edges edges (add_cycle_edge edge adjacency)

  unfoldable pub cycle_adjacency : List String → List (Edge S) → Adjacency
  cycle_adjacency nodes edges = add_cycle_edges edges (touch_all nodes [])

  -- No call is nested deeper than there are names.
  unfoldable pub find_sccs : List String → List (Edge S) → Option (List (List String))
  find_sccs nodes edges =
      let adjacency = cycle_adjacency nodes edges in
      elim (visit_nodes (length (nodes ++ all_neighbors adjacency)) adjacency nodes new) [
        | none ↦ none
        | some t ↦ some t.sccs
      ]

  -- The test of the `matches!` in `check_infinite_loops`.
  unfoldable pub is_exit : List String → String → Edge S → Bool
  is_exit scc node (fixed from to) = false
  is_exit scc node (conditional from router path_map) = str_eq from node && exits_to scc path_map

  unfoldable pub has_exit : List (Edge S) → List String → Bool
  has_exit edges scc = any (λ node. any (is_exit scc node) edges) scc

  unfoldable pub check_sccs : List (Edge S) → List (List String) → Result TopologyError Unit
  check_sccs edges [] = ok tt
  check_sccs edges (scc ∷ sccs) =
      if leb (length scc) 1 || has_exit edges scc
      then check_sccs edges sccs
      else err (potential_infinite_loop scc)

  unfoldable pub check_infinite_loops :
      List String → List (Edge S) → Option (Result TopologyError Unit)
  check_infinite_loops nodes edges = elim (find_sccs nodes edges) [
    | none ↦ none
    | some sccs ↦ some (check_sccs edges sccs)
  ]
