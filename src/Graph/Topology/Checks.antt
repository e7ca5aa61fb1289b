-- ===== src/Graph/Topology/Checks.antt =====
-- crates/juncture-core/src/graph/topology.rs: what a graph that passes a check of
-- `TopologyValidator` has.
use juncture.Prelude.{
  String, ◌≡◌, refl, sym, ap, ◌∙◌, ◌⊎◌, inl, inr, Bool, true, false, not, ◌&&◌, ◌||◌, Option, none,
  some, List, [], ◌∷◌, arith, str_eq, eq_iff, eq_refl, Bool-cases, any, all, Map, contains,
  contains-add,
}
use juncture.Pregel.Schedule.Dedup.{contains_eq}
use juncture.Prelude.Result.{Result, ok, err}
use juncture.Pregel.Types.{start_node, end_node}
use juncture.Graph.Topology.{
  Edge, fixed, conditional, unreachable_node, check_endpoint, check_path_map, check_edge,
  check_edge_targets, search, build_adjacency, enough_fuel, first_unreachable, check_reachability,
  add_unless, add_path_targets, add_incoming, add_outgoing, first_isolated, check_isolated_nodes,
}
use juncture.Graph.Topology.Links.{
  path_leads, edges_lead, falls_back, adjacent, adjacent-build_adjacency,
}
use juncture.Graph.Topology.Search.{Reach, here, step, search-ends, contains-search}

unfoldable pub is_ok : {E A : Type 0} → Result E A → Bool
is_ok (ok a) = true
is_ok (err e) = false

-- The end of an edge names a registered node or the marker.
abbrev pub known : List String → String → String → Bool
known nodes marker name = str_eq name marker || contains name nodes

unfoldable pub targets_known : List String → Map String → Bool
targets_known nodes [] = true
targets_known nodes ((branch, target) ∷ rest) =
    known nodes end_node target && targets_known nodes rest

unfoldable pub edge_known : {S : Type 0} → List String → Edge S → Bool
edge_known nodes (fixed from to) = known nodes start_node from && known nodes end_node to
edge_known nodes (conditional from router path_map) =
    known nodes start_node from && targets_known nodes path_map

is_ok-check_path_map :
    (nodes : List String) (from : String) (path_map : Map String)
    → is_ok (check_path_map nodes from path_map) ≡ targets_known nodes path_map
unfolding is_ok check_path_map check_endpoint targets_known
is_ok-check_path_map nodes from [] = refl
is_ok-check_path_map nodes from ((branch, target) ∷ rest) =
    ground (arith, is_ok-check_path_map nodes from rest)

-- `check_edge_targets` accepts the edges exactly where each edge starts in the start marker or a
-- registered node, and each of its targets is the end marker or a registered node.
pub is_ok-check_edge_targets :
    {S : Type 0} (nodes : List String) (edges : List (Edge S))
    → is_ok (check_edge_targets nodes edges) ≡ all (edge_known nodes) edges
unfolding is_ok check_edge_targets check_edge check_endpoint edge_known
is_ok-check_edge_targets nodes [] = refl
is_ok-check_edge_targets nodes (fixed from to ∷ edges) =
    ground (arith, is_ok-check_edge_targets nodes edges)
is_ok-check_edge_targets nodes (conditional from router path_map ∷ edges) =
    ground (arith, is_ok-check_edge_targets nodes edges, is_ok-check_path_map nodes from path_map)

-- One step of the graph, along an edge or to a fallback.
abbrev pub leads : {S : Type 0} → List (Edge S) → Map (Option String) → String → String → Bool
leads edges fallbacks u v = edges_lead edges u v || falls_back fallbacks u v

Reach-map :
    (f g : String → String → Bool) (entry v : String)
    → ((u w : String) → f u w ≡ g u w)
    → Reach f entry v
    → Reach g entry v
Reach-map f g entry _ e here = here
Reach-map f g entry _ e (step u v r h) = step u v (Reach-map f g entry u e r) (sym (e u v) ∙ h)

-- A result of `first_unreachable`: the nodes are all visited, or the error names one that is not.
first_unreachable-visited :
    (nodes visited : List String)
    → ((first_unreachable nodes visited ≡ ok tt)
        × ((n : String) → contains n nodes ≡ true → contains n visited ≡ true))
      ⊎ ((n : String) × (first_unreachable nodes visited ≡ err (unreachable_node n))
          × (contains n nodes ≡ true)
          × (contains n visited ≡ false))
unfolding first_unreachable
first_unreachable-visited [] visited = inl (refl, λ n h. ground arith)
first_unreachable-visited (node ∷ nodes) visited = elim (Bool-cases (contains node visited)) [
  | inl e ↦ elim (first_unreachable-visited nodes visited) [
    | inl (r, seen) ↦
        inl (rw e r, λ n h. ground (arith, seen n, eq_iff node n, contains_eq node n visited))
    | inr (n, r, q, u) ↦ inr (n, rw e r, ground arith, u)
  ]
  | inr e ↦ inr (node, rw e refl, ground (arith, eq_refl node), e)
]

check_reachability-found :
    {S : Type 0} (nodes : List String) (edges : List (Edge S)) (entry : String)
    → (fallbacks : Map (Option String)) (found : List String)
    → search
        (enough_fuel (build_adjacency nodes edges fallbacks))
        (build_adjacency nodes edges fallbacks)
        (entry ∷ [])
        (entry ∷ [])
      ≡ some found
    → check_reachability nodes edges (some entry) fallbacks ≡ some (first_unreachable nodes found)
unfolding check_reachability
check_reachability-found nodes edges entry fallbacks found e =
    ap
      (λ (o : Option (List String)). elim o [
        | none ↦ none
        | some v ↦ some (first_unreachable nodes v)
      ])
      e

-- `check_reachability` ends. It accepts the graph where every node is reached from the entry along
-- edges and fallbacks, and otherwise its error names a registered node that is not reached.
pub check_reachability-Reach :
    {S : Type 0} (nodes : List String) (edges : List (Edge S)) (entry : String)
    → (fallbacks : Map (Option String))
    → ((check_reachability nodes edges (some entry) fallbacks ≡ some (ok tt))
        × ((n : String) → contains n nodes ≡ true → Reach (leads edges fallbacks) entry n))
      ⊎ ((n : String) × (check_reachability nodes edges (some entry) fallbacks
            ≡ some (err (unreachable_node n)))
          × (contains n nodes ≡ true)
          × ¬ Reach (leads edges fallbacks) entry n)
check_reachability-Reach nodes edges entry fallbacks =
    let m = build_adjacency nodes edges fallbacks in
    let same = adjacent-build_adjacency nodes edges fallbacks in
    let (found, e) = search-ends m entry in
    let answer = check_reachability-found nodes edges entry fallbacks found e in
    let exact = contains-search m entry (enough_fuel m) found e in
    let forth = λ (v : String). Reach-map (adjacent m) (leads edges fallbacks) entry v same in
    let back = λ (v : String).
      Reach-map (leads edges fallbacks) (adjacent m) entry v (λ u w. sym (same u w)) in
    elim (first_unreachable-visited nodes found) [
      | inl (r, seen) ↦ inl (answer ∙ ap some r, λ n h. forth n ((exact n).0 (seen n h)))
      | inr (n, r, q, u) ↦ inr (
        n,
        answer ∙ ap some r,
        q,
        λ reach. absurd (ground (arith, (exact n).1 (back n reach), u)),
      )
    ]

-- Some edge that is not from the start marker leaves the node.
unfoldable pub leaves : {S : Type 0} → String → Edge S → Bool
leaves n (fixed from to) = not (str_eq from start_node) && str_eq from n
leaves n (conditional from router path_map) = not (str_eq from start_node) && str_eq from n

-- Some edge enters it.
unfoldable pub enters : {S : Type 0} → String → Edge S → Bool
enters n (fixed from to) = not (str_eq to end_node) && str_eq to n
enters n (conditional from router path_map) = path_leads path_map n

contains-add_unless :
    (marker name n : String) (names : List String)
    → contains n (add_unless marker name names)
      ≡ ((not (str_eq name marker) && str_eq name n) || contains n names)
contains-add_unless marker name n names = elim (Bool-cases (str_eq name marker)) [
  | inl e ↦ rw e refl
  | inr e ↦ rw e (contains-add name n names)
]

contains-add_path_targets :
    (path_map : Map String) (n : String) (names : List String)
    → contains n (add_path_targets path_map names) ≡ (path_leads path_map n || contains n names)
unfolding add_path_targets path_leads
contains-add_path_targets [] n names = refl
contains-add_path_targets ((branch, target) ∷ rest) n names =
    contains-add_path_targets rest n (add_unless end_node target names)
    ∙ ap (λ (b : Bool). path_leads rest n || b) (contains-add_unless end_node target n names)
    ∙ ground arith

contains-add_incoming :
    {S : Type 0} (edges : List (Edge S)) (n : String) (names : List String)
    → contains n (add_incoming edges names) ≡ (any (enters n) edges || contains n names)
unfolding add_incoming enters
contains-add_incoming [] n names = refl
contains-add_incoming (fixed from to ∷ edges) n names =
    contains-add_incoming edges n (add_unless end_node to names)
    ∙ ap (λ (b : Bool). any (enters n) edges || b) (contains-add_unless end_node to n names)
    ∙ ground arith
contains-add_incoming (conditional from router path_map ∷ edges) n names =
    contains-add_incoming edges n (add_path_targets path_map names)
    ∙ ap (λ (b : Bool). any (enters n) edges || b) (contains-add_path_targets path_map n names)
    ∙ ground arith

contains-add_outgoing :
    {S : Type 0} (edges : List (Edge S)) (n : String) (names : List String)
    → contains n (add_outgoing edges names) ≡ (any (leaves n) edges || contains n names)
unfolding add_outgoing leaves
contains-add_outgoing [] n names = refl
contains-add_outgoing (fixed from to ∷ edges) n names =
    contains-add_outgoing edges n (add_unless start_node from names)
    ∙ ap (λ (b : Bool). any (leaves n) edges || b) (contains-add_unless start_node from n names)
    ∙ ground arith
contains-add_outgoing (conditional from router path_map ∷ edges) n names =
    contains-add_outgoing edges n (add_unless start_node from names)
    ∙ ap (λ (b : Bool). any (leaves n) edges || b) (contains-add_unless start_node from n names)
    ∙ ground arith

is_ok-first_isolated :
    (nodes has_incoming has_outgoing : List String)
    → is_ok (first_isolated nodes has_incoming has_outgoing)
      ≡ all (λ n. contains n has_incoming || contains n has_outgoing) nodes
unfolding is_ok first_isolated
is_ok-first_isolated [] has_incoming has_outgoing = refl
is_ok-first_isolated (n ∷ nodes) has_incoming has_outgoing =
    ground (arith, is_ok-first_isolated nodes has_incoming has_outgoing)

all-cong :
    (p q : String → Bool) (xs : List String) → ((x : String) → p x ≡ q x) → all p xs ≡ all q xs
all-cong p q [] e = refl
all-cong p q (x ∷ xs) e = ground (arith, e x, all-cong p q xs e)

-- `check_isolated_nodes` accepts the graph exactly where each node has an edge that enters or
-- leaves it. An edge from the start marker counts for its target, one to the end marker for its
-- source, and a fallback does not count.
pub is_ok-check_isolated_nodes :
    {S : Type 0} (nodes : List String) (edges : List (Edge S))
    → is_ok (check_isolated_nodes nodes edges)
      ≡ all (λ n. any (enters n) edges || any (leaves n) edges) nodes
unfolding check_isolated_nodes
is_ok-check_isolated_nodes nodes edges =
    is_ok-first_isolated nodes (add_incoming edges []) (add_outgoing edges [])
    ∙ all-cong (λ n. contains n (add_incoming edges []) || contains n (add_outgoing edges []))
        (λ n. any (enters n) edges || any (leaves n) edges) nodes
        (λ n. ground (arith, contains-add_incoming edges n [], contains-add_outgoing edges n []))
