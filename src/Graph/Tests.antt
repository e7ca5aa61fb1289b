-- ===== src/Graph/Tests.antt =====
-- The graph's parts at concrete inputs.
use juncture.Prelude.{
  ℕ, String, ◌≡◌, ◌⊎◌, true, ◌||◌, Option, none, some, List, [], ◌∷◌, arith, any, all, Map,
  contains,
}
use juncture.Prelude.Result.{Result, ok, err}
use juncture.Pregel.Types.{JunctureError, RouteResult, one}
use juncture.Graph.Topology.{
  TopologyError, unreachable_node, Edge, fixed, conditional, check_edge_targets, check_reachability,
  check_isolated_nodes,
}
use juncture.Graph.Topology.Search.{Reach}
use juncture.Graph.Topology.Checks.{
  is_ok, edge_known, leads, enters, leaves, check_reachability-Reach, is_ok-check_edge_targets,
  is_ok-check_isolated_nodes,
}
use juncture.Graph.Topology.Validate.{Checked, validate, validate-ends}
use juncture.Graph.Breaker.{new_config, new_state}
use juncture.Graph.Breaker.Invariant.{ask, succeeded, failure_at, acts, IsValid, acts-IsValid}

acts-IsValid_example : IsValid (new_config 2 10) (
    acts
      (new_config 2 10)
      new_state
      (failure_at 3 ∷ failure_at 4 ∷ ask 20 ∷ failure_at 21 ∷ ask 40 ∷ succeeded ∷ []))
acts-IsValid_example =
    acts-IsValid (new_config 2 10)
      (failure_at 3 ∷ failure_at 4 ∷ ask 20 ∷ failure_at 21 ∷ ask 40 ∷ succeeded ∷ []) (omega arith)

abbrev route : ℕ → Result JunctureError RouteResult
route s = ok (one "b")

-- `a` goes to `b` or ends, `b` goes back to `a`, and `c` is only a fallback of `b`.
abbrev edges : List (Edge ℕ)
edges =
    fixed "__start__" "a"
    ∷ conditional "a" route (("more", "b") ∷ ("done", "__end__") ∷ [])
    ∷ fixed "b" "a"
    ∷ []

abbrev nodes : List String
nodes = "a" ∷ "b" ∷ "c" ∷ []

abbrev fallbacks : Map (Option String)
fallbacks = ("b", some "c") ∷ ("a", none) ∷ []

check_reachability-Reach_example :
    ((check_reachability nodes edges (some "a") fallbacks ≡ some (ok tt))
      × ((n : String) → contains n nodes ≡ true → Reach (leads edges fallbacks) "a" n))
    ⊎ ((n : String) × (check_reachability nodes edges (some "a") fallbacks
          ≡ some (err (unreachable_node n)))
        × (contains n nodes ≡ true)
        × ¬ Reach (leads edges fallbacks) "a" n)
check_reachability-Reach_example = check_reachability-Reach nodes edges "a" fallbacks

is_ok-check_edge_targets_example :
    is_ok (check_edge_targets nodes edges) ≡ all (edge_known nodes) edges
is_ok-check_edge_targets_example = is_ok-check_edge_targets nodes edges

is_ok-check_isolated_nodes_example :
    is_ok (check_isolated_nodes nodes edges)
    ≡ all (λ n. any (enters n) edges || any (leaves n) edges) nodes
is_ok-check_isolated_nodes_example = is_ok-check_isolated_nodes nodes edges

validate-ends_example :
    (r : Result TopologyError Checked) × (validate nodes edges (some "a") fallbacks ≡ some r)
validate-ends_example = validate-ends nodes edges (some "a") fallbacks
