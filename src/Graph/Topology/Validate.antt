-- ===== src/Graph/Topology/Validate.antt =====
-- crates/juncture-core/src/graph/topology.rs: `TopologyValidator::validate`.
use juncture.Prelude.{String, ◌≡◌, refl, inl, inr, Option, none, some, List, Map}
use juncture.Prelude.Result.{Result, ok, err}
use juncture.Graph.Topology.{
  TopologyError, no_entry_point, unreachable_node, Edge, check_entry_point, check_edge_targets,
  check_reachability, check_isolated_nodes,
}
use juncture.Graph.Topology.Tarjan.{check_sccs, check_infinite_loops}
use juncture.Graph.Topology.Tarjan.Bounded.{find_sccs-ends}
use juncture.Graph.Topology.Checks.{check_reachability-Reach}

-- `()`
abbrev pub Checked : Type 0
Checked = Unit

-- `?` on a check that may be cut off.
abbrev pub then_check :
    Option (Result TopologyError Checked)
    → (Checked → Option (Result TopologyError Checked))
    → Option (Result TopologyError Checked)
then_check none next = none
then_check (some (err e)) next = some (err e)
then_check (some (ok u)) next = next u

unfoldable pub validate :
    {S : Type 0}
    → List String
    → List (Edge S)
    → Option String
    → Map (Option String)
    → Option (Result TopologyError Checked)
validate nodes edges entry_point fallbacks = then_check (some (check_entry_point entry_point)) (λ _.
    then_check (some (check_edge_targets nodes edges)) (λ _.
      then_check (check_reachability nodes edges entry_point fallbacks) (λ _.
        then_check (some (check_isolated_nodes nodes edges))
          (λ _. check_infinite_loops nodes edges))))

check_infinite_loops-ends :
    {S : Type 0} (nodes : List String) (edges : List (Edge S))
    → (r : Result TopologyError Checked) × (check_infinite_loops nodes edges ≡ some r)
unfolding check_infinite_loops
check_infinite_loops-ends nodes edges =
    let (sccs, e) = find_sccs-ends nodes edges in
    (check_sccs edges sccs, rw (check_infinite_loops, e) refl)

check_reachability-ends :
    {S : Type 0} (nodes : List String) (edges : List (Edge S)) (entry_point : Option String)
    → (fallbacks : Map (Option String))
    → (r : Result TopologyError Checked) × (check_reachability nodes edges entry_point fallbacks
        ≡ some r)
unfolding check_reachability
check_reachability-ends nodes edges none fallbacks = (err no_entry_point, refl)
check_reachability-ends nodes edges (some entry) fallbacks =
    elim (check_reachability-Reach nodes edges entry fallbacks) [
      | inl (e, all_reached) ↦ (ok tt, e)
      | inr (n, e, q, u) ↦ (err (unreachable_node n), e)
    ]

then_check-ends :
    (o : Option (Result TopologyError Checked))
    → (next : Unit → Option (Result TopologyError Checked))
    → ((r : Result TopologyError Checked) × (o ≡ some r))
    → ((r : Result TopologyError Checked) × (next tt ≡ some r))
    → (r : Result TopologyError Checked) × (then_check o next ≡ some r)
then_check-ends o next (err e, p) q = (err e, rw p refl)
then_check-ends o next (ok u, p) (r, q) = (r, rw p q)

-- `validate` ends on every graph: both the breadth-first search and Tarjan's recursion finish on
-- the fuel that the model gives them, so that the answer is `Ok` or a `TopologyError`.
pub validate-ends :
    {S : Type 0} (nodes : List String) (edges : List (Edge S)) (entry_point : Option String)
    → (fallbacks : Map (Option String))
    → (r : Result TopologyError Checked) × (validate nodes edges entry_point fallbacks ≡ some r)
unfolding validate
validate-ends nodes edges entry_point fallbacks =
    then_check-ends (some (check_entry_point entry_point)) _ (check_entry_point entry_point, refl)
      (then_check-ends (some (check_edge_targets nodes edges)) _
        (check_edge_targets nodes edges, refl)
        (then_check-ends (check_reachability nodes edges entry_point fallbacks) _
          (check_reachability-ends nodes edges entry_point fallbacks)
          (then_check-ends (some (check_isolated_nodes nodes edges)) _
            (check_isolated_nodes nodes edges, refl) (check_infinite_loops-ends nodes edges))))
