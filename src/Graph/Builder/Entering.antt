-- ===== src/Graph/Builder/Entering.antt =====
-- crates/juncture-core/src/graph/builder.rs and pregel/loop_.rs: the nodes that a run of the
-- compiled graph starts with.
use juncture.Prelude.{
  ℕ, ◌+◌, String, ◌≡◌, refl, ap, ◌∙◌, Bool, true, false, ◌&&◌, ◌||◌, Option, none, some, List, [],
  ◌∷◌, ◌++◌, map, arith, str_eq, eq_iff, if◌then◌else◌, any, Map, lookup, insert, contains,
}
use juncture.Pregel.Types.{
  start_node, PendingTask, push_entry, add_outgoing, add_incoming, TriggerTable, TriggerSource,
  edge, send_from,
}
use juncture.Pregel.Loop.{starts, initial_tasks, compute_initial_tasks}
use juncture.Graph.Topology.{Edge, fixed, conditional}
use juncture.Graph.Builder.{
  StateGraph, add_targets, compile_edge, compile_edges, build_trigger_table,
}

-- The nodes that the initial tasks run.
abbrev pub initial_nodes : (S V : Type 0) → (ℕ → String) → TriggerTable S → List String
initial_nodes S V uuid table =
    map (λ (t : PendingTask S V). t.node_name) (compute_initial_tasks uuid table)

-- Some entry of `n` has an edge from the start marker.
unfoldable sourced : String → Map (List TriggerSource) → Bool
sourced n [] = false
sourced n ((node, sources) ∷ rest) = (str_eq node n && starts sources) || sourced n rest

-- Some branch leads to `n`.
unfoldable pub reaches : String → Map String → Bool
reaches n [] = false
reaches n ((branch, target) ∷ rest) = str_eq target n || reaches n rest

-- The edge leaves the start marker and has `n` among its targets.
unfoldable pub starts_at : {S : Type 0} → String → Edge S → Bool
starts_at n (fixed from to) = str_eq from start_node && str_eq to n
starts_at n (conditional from router path_map) = str_eq from start_node && reaches n path_map

contains-initial_tasks :
    (S V : Type 0) (n : String) (uuid : ℕ → String) (k : ℕ) (incoming : Map (List TriggerSource))
    → contains n (map (λ (t : PendingTask S V). t.node_name) (initial_tasks uuid k incoming))
      ≡ sourced n incoming
unfolding initial_tasks sourced
contains-initial_tasks S V n uuid k [] = refl
contains-initial_tasks S V n uuid k ((node, sources) ∷ rest) =
    go (starts sources) refl (contains-initial_tasks S V n uuid (k + 1) rest)
      (contains-initial_tasks S V n uuid k rest)
  where
    names : ℕ → List String
    names j = map (λ (t : PendingTask S V). t.node_name) (initial_tasks uuid j rest)

    go :
        (b : Bool)
        → starts sources ≡ b
        → contains n (names (k + 1)) ≡ sourced n rest
        → contains n (names k) ≡ sourced n rest
        → contains n (
            map
              (λ (t : PendingTask S V). t.node_name)
              (initial_tasks uuid k ((node, sources) ∷ rest)))
          ≡ ((str_eq node n && starts sources) || sourced n rest)
    go true e next same = rw (e, next) (ground arith)
    go false e next same = rw (e, same) (ground arith)

starts-append : (xs ys : List TriggerSource) → starts (xs ++ ys) ≡ (starts xs || starts ys)
unfolding starts
starts-append [] ys = refl
starts-append (edge from ∷ xs) ys = ground (arith, starts-append xs ys)
starts-append (send_from from ∷ xs) ys = starts-append xs ys

-- What `push_entry` writes under its key.
abbrev pushed : Option (List TriggerSource) → TriggerSource → List TriggerSource
pushed o source = elim o [ none ↦ source ∷ [] | some values ↦ values ++ source ∷ [] ]

push_entry-skip :
    (k node : String) (source : TriggerSource) (sources : List TriggerSource)
    (rest : Map (List TriggerSource))
    → str_eq node k ≡ false
    → push_entry k source ((node, sources) ∷ rest) ≡ (node, sources) ∷ push_entry k source rest
unfolding push_entry lookup insert
push_entry-skip k node source sources rest e =
    ap
      (λ b.
        insert k (pushed (if b then some sources else lookup k rest) source)
          ((node, sources) ∷ rest))
      e
    ∙ ap
        (λ b.
          if b
          then (k, pushed (lookup k rest) source) ∷ rest
          else ((node, sources) ∷ push_entry k source rest))
        e

sourced-push_entry :
    (n k : String) (source : TriggerSource) (m : Map (List TriggerSource))
    → sourced n (push_entry k source m) ≡ ((str_eq k n && starts (source ∷ [])) || sourced n m)
unfolding sourced push_entry lookup insert
sourced-push_entry n k source [] = refl
sourced-push_entry n k source ((node, sources) ∷ rest) =
    go (str_eq node k) refl (sourced-push_entry n k source rest)
  where
    go :
        (b : Bool)
        → str_eq node k ≡ b
        → sourced n (push_entry k source rest)
          ≡ ((str_eq k n && starts (source ∷ [])) || sourced n rest)
        → sourced n (push_entry k source ((node, sources) ∷ rest))
          ≡ ((str_eq k n && starts (source ∷ [])) || sourced n ((node, sources) ∷ rest))
    go true e later = rw e (
        ground
          (arith, starts-append sources (source ∷ []), eq_iff node k, eq_iff node n, eq_iff k n))
    go false e later =
        ap (sourced n) (push_entry-skip k node source sources rest e) ∙ ground (arith, later)

sourced-add_targets :
    {S : Type 0} (n from : String) (path_map : Map String) (table : TriggerTable S)
    → sourced n (add_targets from path_map table).incoming
      ≡ ((str_eq from start_node && reaches n path_map) || sourced n table.incoming)
unfolding add_targets add_incoming reaches starts
sourced-add_targets n from [] table = ground arith
sourced-add_targets n from ((branch, target) ∷ rest) table =
    sourced-add_targets n from rest (add_incoming table target (edge from))
    ∙ ground (arith, sourced-push_entry n target (edge from) table.incoming)

sourced-compile_edge :
    {S : Type 0} (n : String) (e : Edge S) (table : TriggerTable S)
    → sourced n (compile_edge e table).incoming ≡ (starts_at n e || sourced n table.incoming)
unfolding compile_edge add_incoming add_outgoing starts_at starts
sourced-compile_edge n (fixed from to) table =
    ground (arith, sourced-push_entry n to (edge from) table.incoming)
sourced-compile_edge n (conditional from router path_map) table = go (str_eq from start_node) refl
  where
    go :
        (b : Bool)
        → str_eq from start_node ≡ b
        → sourced n (compile_edge (conditional from router path_map) table).incoming
          ≡ (starts_at n (conditional from router path_map) || sourced n table.incoming)
    go true e = rw e (sourced-add_targets n from path_map table ∙ rw e refl)
    go false e = rw e (sourced-add_targets n from path_map _ ∙ rw e refl)

sourced-compile_edges :
    {S : Type 0} (n : String) (edges : List (Edge S)) (table : TriggerTable S)
    → sourced n (compile_edges edges table).incoming
      ≡ (any (starts_at n) edges || sourced n table.incoming)
unfolding compile_edges
sourced-compile_edges n [] table = refl
sourced-compile_edges n (e ∷ edges) table =
    sourced-compile_edges n edges (compile_edge e table)
    ∙ ground (arith, sourced-compile_edge n e table)

-- A run of a compiled graph starts with a task of the node `n` exactly where some edge from the
-- start marker has `n` among its targets; of a conditional edge from the start marker, every branch
-- counts, and the router is not asked.
pub initial_nodes-build_trigger_table :
    (S V : Type 0) (uuid : ℕ → String) (g : StateGraph S) (n : String)
    → contains n (initial_nodes S V uuid (build_trigger_table g)) ≡ any (starts_at n) g.edges
unfolding compute_initial_tasks build_trigger_table sourced
initial_nodes-build_trigger_table S V uuid g n =
    contains-initial_tasks S V n uuid 0 (build_trigger_table g).incoming
    ∙ sourced-compile_edges n g.edges (record { outgoing = []; incoming = [] })
    ∙ ground arith
