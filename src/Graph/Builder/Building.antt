-- ===== src/Graph/Builder/Building.antt =====
-- crates/juncture-core/src/graph/builder.rs: a program that builds a graph by the methods of
-- `StateGraph`, and compiles it.
use juncture.Prelude.{
  ℕ, String, ◌≡◌, refl, sym, ◌∙◌, Bool, true, false, ◌||◌, Option, none, some, List, [], ◌∷◌, ◌++◌,
  arith, eq_iff, if◌then◌else◌, any, all, Map, insert, contains,
}
use mathlib.Core.Path.{subst⁻¹}
use juncture.Prelude.Result.{Result, ok, err, ◌>>=◌}
use juncture.Pregel.Types.{JunctureError, RouteResult, start_node, end_node}
use juncture.Graph.Topology.{TopologyError, duplicate_node, Edge, fixed, conditional}
use juncture.Graph.Topology.Checks.{known, targets_known, edge_known}
use juncture.Graph.Builder.{
  NodeMetadata, StateGraph, new_graph, add_node, add_edge, add_conditional_edges, set_entry_point,
  set_finish_point, add_windows, add_sequence, check_registered, build_trigger_table,
}
use juncture.Graph.Builder.Entering.{
  initial_nodes, reaches, starts_at, initial_nodes-build_trigger_table,
}

-- A call of a method of the builder.
pub data Call (S : Type 0) : Type 0 where
  node : String → NodeMetadata → Call S
  edge : String → String → Call S
  conditional_edges : String → (S → Result JunctureError RouteResult) → Map String → Call S
  entry finish : String → Call S
  sequence : List String → Call S

unfoldable pub apply_call :
    {S : Type 0} → Call S → StateGraph S → Result TopologyError (StateGraph S)
apply_call (node name metadata) g = add_node name metadata g
apply_call (edge from to) g = ok (add_edge from to g)
apply_call (conditional_edges from router path_map) g =
    ok (add_conditional_edges from router path_map g)
apply_call (entry name) g = ok (set_entry_point name g)
apply_call (finish name) g = ok (set_finish_point name g)
apply_call (sequence names) g = add_sequence names g

unfoldable pub build :
    {S : Type 0} → List (Call S) → StateGraph S → Result TopologyError (StateGraph S)
build [] g = ok g
build (call ∷ calls) g = apply_call call g >>= (λ next. build calls next)

-- The entry point that is set has an edge from the start marker.
abbrev EntersEdge : {S : Type 0} → Option String → List (Edge S) → Type 0
EntersEdge entry_point edges = (n : String) → entry_point ≡ some n → any (starts_at n) edges ≡ true

abbrev IsEntered : {S : Type 0} → Result TopologyError (StateGraph S) → Type 0
IsEntered (ok g) = EntersEdge g.entry_point g.edges
IsEntered (err e) = Unit

any-append :
    {A : Type 0} (p : A → Bool) (xs ys : List A) → any p (xs ++ ys) ≡ (any p xs || any p ys)
any-append p [] ys = refl
any-append p (x ∷ xs) ys = ground (arith, any-append p xs ys)

any-more : {A : Type 0} (p : A → Bool) (xs ys : List A) → any p xs ≡ true → any p (xs ++ ys) ≡ true
any-more p xs ys h = any-append p xs ys ∙ rw h refl

set_entry_point-EntersEdge :
    {S : Type 0} (name : String) (g : StateGraph S)
    → EntersEdge (set_entry_point name g).entry_point (set_entry_point name g).edges
unfolding set_entry_point starts_at
set_entry_point-EntersEdge name g n e =
    any-append (starts_at n) g.edges (fixed start_node name ∷ []) ∙ grind (arith, eq_iff name n)

add_windows-EntersEdge :
    {S : Type 0} (from : String) (names : List String) (g : StateGraph S)
    → EntersEdge g.entry_point g.edges
    → EntersEdge (add_windows from names g).entry_point (add_windows from names g).edges
unfolding add_windows add_edge
add_windows-EntersEdge from [] g h = h
add_windows-EntersEdge from (to ∷ names) g h =
    add_windows-EntersEdge to names (add_edge from to g)
      (λ n e. any-more (starts_at n) g.edges (fixed from to ∷ []) (h n e))

sequence-IsEntered :
    {S : Type 0} (names : List String) (g : StateGraph S)
    → EntersEdge g.entry_point g.edges
    → IsEntered (add_sequence names g)
unfolding add_sequence
sequence-IsEntered [] g h = h
sequence-IsEntered {S} (first ∷ names) g h =
    go (check_registered g.nodes (first ∷ names)) g.entry_point refl
  where
    go :
        (r : Result TopologyError Unit) (o : Option String)
        → g.entry_point ≡ o
        → IsEntered (
            r >>= (λ _. ok (
              add_windows first names (elim o [ none ↦ set_entry_point first g | some name ↦ g ]))))
    go (err e) o q = tt
    go (ok u) none q =
        add_windows-EntersEdge first names (set_entry_point first g)
          (set_entry_point-EntersEdge first g)
    go (ok u) (some name) q = add_windows-EntersEdge first names g h

apply_call-IsEntered :
    {S : Type 0} (call : Call S) (g : StateGraph S)
    → EntersEdge g.entry_point g.edges
    → IsEntered (apply_call call g)
unfolding apply_call add_node add_edge add_conditional_edges set_finish_point
apply_call-IsEntered {S} (node name metadata) g h = go (contains name g.nodes)
  where
    go :
        (b : Bool)
        → IsEntered {S = S} (
            if b
            then err (duplicate_node name)
            else ok (record g {
              nodes = g.nodes ++ name ∷ [];
              builder_metadata = insert name metadata g.builder_metadata;
            }))
    go true = tt
    go false = h
apply_call-IsEntered (edge from to) g h =
    λ n e. any-more (starts_at n) g.edges (fixed from to ∷ []) (h n e)
apply_call-IsEntered (conditional_edges from router path_map) g h =
    λ n e. any-more (starts_at n) g.edges (conditional from router path_map ∷ []) (h n e)
apply_call-IsEntered (entry name) g h = set_entry_point-EntersEdge name g
apply_call-IsEntered (finish name) g h =
    λ n e. any-more (starts_at n) g.edges (fixed name end_node ∷ []) (h n e)
apply_call-IsEntered (sequence names) g h = sequence-IsEntered names g h

build-IsEntered :
    {S : Type 0} (calls : List (Call S)) (g : StateGraph S)
    → EntersEdge g.entry_point g.edges
    → IsEntered (build calls g)
unfolding build
build-IsEntered [] g h = h
build-IsEntered {S} (call ∷ calls) g h =
    go (apply_call call g) (apply_call-IsEntered call g h) (λ next. build-IsEntered calls next)
  where
    go :
        (r : Result TopologyError (StateGraph S))
        → IsEntered r
        → ((next : StateGraph S)
            → EntersEdge next.entry_point next.edges
            → IsEntered (build calls next))
        → IsEntered (r >>= (λ next. build calls next))
    go (ok next) q rest = rest next q
    go (err e) q rest = tt

-- Every call that sets an entry point adds its edge, so that a graph that is built has the node
-- that is set among its initial tasks.
pub build-initial_nodes :
    (S V : Type 0) (uuid : ℕ → String) (calls : List (Call S)) (g : StateGraph S) (n : String)
    → build calls new_graph ≡ ok g
    → g.entry_point ≡ some n
    → contains n (initial_nodes S V uuid (build_trigger_table g)) ≡ true
build-initial_nodes S V uuid calls g n built is_entry =
    initial_nodes-build_trigger_table S V uuid g n
    ∙ subst⁻¹ (λ (r : Result TopologyError (StateGraph S)). IsEntered r) (sym built)
        (build-IsEntered calls new_graph (λ m e. ground arith)) n is_entry

reaches-known :
    (n : String) (nodes : List String) (path_map : Map String)
    → targets_known nodes path_map ≡ true
    → reaches n path_map ≡ true
    → known nodes end_node n ≡ true
unfolding targets_known reaches
reaches-known n nodes [] t r = ground arith
reaches-known n nodes ((branch, target) ∷ rest) t r =
    ground (arith, eq_iff target n, reaches-known n nodes rest)

pub starts_at-known :
    {S : Type 0} (n : String) (nodes : List String) (edges : List (Edge S))
    → all (edge_known nodes) edges ≡ true
    → any (starts_at n) edges ≡ true
    → known nodes end_node n ≡ true
unfolding starts_at edge_known
starts_at-known n nodes [] k s = ground arith
starts_at-known n nodes (fixed from to ∷ edges) k s =
    ground (arith, eq_iff to n, starts_at-known n nodes edges)
starts_at-known n nodes (conditional from router path_map ∷ edges) k s =
    ground (arith, reaches-known n nodes path_map, starts_at-known n nodes edges)
