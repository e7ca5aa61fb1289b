-- ===== src/Pregel/Schedule.antt =====
-- crates/juncture-core/src/pregel/scheduler.rs: which tasks run after a superstep.
-- Ids come from `Uuid::new_v4`, which is called once for each task pushed: `uuid k` is the id that
-- the call with `k` tasks already pushed returns. Of the map `nodes` only its keys are read.
pub mod Dedup
pub mod Requests
pub mod Routing
pub mod Tasks
pub mod Next
pub mod Triggers
use juncture.Prelude.{
  ℕ, ◌+◌, String, not, ◌&&◌, none, some, List, [], ◌∷◌, ◌++◌, str_eq, if◌then◌else◌, length, Map,
  lookup, insert, contains_key, or_empty, contains, add,
}
use juncture.Prelude.Result.{Result, ok, err, ◌>>=◌}
use juncture.Pregel.Types.{
  JunctureError, routed_to_unknown, end_node, PendingTask, pull_task, push_task, SendTarget, Goto,
  stay, next, multiple, send, end, Command, TaskOutput, RouteResult, targets, CompiledEdge, fixed,
  conditional, TriggerSource, edge, send_from, TriggerTable,
}

-- For each channel that changed, the nodes to look at.
abbrev pub TriggerToNodes : Type 0
TriggerToNodes = Map (List String)

-- `mapping.entry(from).or_default().insert(node)`
unfoldable pub add_entry : String → String → TriggerToNodes → TriggerToNodes
add_entry from node m = insert from (add node (or_empty (lookup from m))) m

abbrev pub source_name : TriggerSource → String
source_name (edge from) = from
source_name (send_from from) = from

unfoldable pub add_sources : String → List TriggerSource → TriggerToNodes → TriggerToNodes
add_sources node [] m = m
add_sources node (source ∷ sources) m =
    add_sources node sources (add_entry (source_name source) node m)

unfoldable pub from_incoming : Map (List TriggerSource) → TriggerToNodes → TriggerToNodes
from_incoming [] m = m
from_incoming ((node, sources) ∷ rest) m = from_incoming rest (add_sources node sources m)

unfoldable pub from_trigger_table : {S : Type 0} → TriggerTable S → TriggerToNodes
from_trigger_table table = from_incoming table.incoming []

unfoldable pub triggered_nodes : TriggerToNodes → List String → List String
triggered_nodes mapping [] = []
triggered_nodes mapping (channel ∷ channels) =
    or_empty (lookup channel mapping) ++ triggered_nodes mapping channels

-- The two variables that `compute_next_tasks` fills.
pub record Frontier (S J : Type 0) : Type 0 where
  pub next_tasks : List (PendingTask S J)
  pub seen_nodes : List String

abbrev pub empty_frontier : {S J : Type 0} → Frontier S J
empty_frontier = record { next_tasks = []; seen_nodes = [] }

-- `path_map.get(label).map_or(label, ..)`
abbrev pub target_of : Map String → String → String
target_of path_map label = elim (lookup label path_map) [ none ↦ label | some target ↦ target ]

abbrev pub edges_of : {S : Type 0} → TriggerTable S → String → List (CompiledEdge S)
edges_of table from = or_empty (lookup from table.outgoing)

module _ {S J : Type 0} (uuid : ℕ → String) where
  -- `if !seen.contains(target) { seen.insert(target); next_tasks.push(PendingTask::pull(..)) }`
  unfoldable pub activate : String → Frontier S J → Frontier S J
  activate target f = if contains target f.seen_nodes then f else record {
    next_tasks = f.next_tasks ++ pull_task (uuid (length f.next_tasks)) target ∷ [];
    seen_nodes = add target f.seen_nodes;
  }

  unfoldable pub activate_all : List String → Frontier S J → Frontier S J
  activate_all [] f = f
  activate_all (target ∷ rest) f = activate_all rest (activate target f)

  unfoldable pub push_sends : ℕ → List (SendTarget J) → Frontier S J → Frontier S J
  push_sends idx [] f = f
  push_sends idx (target ∷ rest) f = push_sends (idx + 1) rest (record f {
    next_tasks =
        f.next_tasks ++ push_task (uuid (length f.next_tasks)) target.node idx target.state ∷ [];
  })

  module _ (nodes : List String) where
    -- The loop over the labels that a router returned.
    unfoldable pub process_labels :
        String → Map String → List String → Frontier S J → Result JunctureError (Frontier S J)
    process_labels from path_map [] f = ok f
    process_labels from path_map (label ∷ labels) f =
        let target = target_of path_map label in
        if not (contains_key label path_map)
          && not (contains target nodes)
          && not (str_eq target end_node)
        then err (routed_to_unknown from label)
        else process_labels from path_map labels
            (if str_eq target end_node then f else activate target f)

    unfoldable pub process_edge :
        CompiledEdge S
        → S
        → List String
        → String
        → Frontier S J
        → Result JunctureError (Frontier S J)
    process_edge (fixed target) state triggered from f =
        ok (
          if contains target triggered && not (str_eq target end_node)
          then activate target f
          else f)
    process_edge (conditional route path_map) state triggered from f = do
      result ← route state
      process_labels from path_map (targets result) f

    unfoldable pub process_edges :
        List (CompiledEdge S)
        → S
        → List String
        → String
        → Frontier S J
        → Result JunctureError (Frontier S J)
    process_edges [] state triggered from f = ok f
    process_edges (e ∷ edges) state triggered from f = do
      g ← process_edge e state triggered from f
      process_edges edges state triggered from g

    module _ (table : TriggerTable S) (mapping : TriggerToNodes) (state : S) where
      unfoldable pub route_output :
          String → Goto J → Frontier S J → Result JunctureError (Frontier S J)
      route_output from stay f =
          process_edges (edges_of table from) state (triggered_nodes mapping (from ∷ [])) from f
      route_output from (next target) f = ok (activate target f)
      route_output from (multiple names) f = ok (activate_all names f)
      route_output from (send sends) f = ok (push_sends 0 sends f)
      route_output from end f = ok f

      unfoldable pub route_outputs :
          {U : Type 0} → List (TaskOutput U J) → Frontier S J → Result JunctureError (Frontier S J)
      route_outputs [] f = ok f
      route_outputs (o ∷ outputs) f = do
        g ← route_output o.node_name o.command.goto f
        route_outputs outputs g

      unfoldable pub compute_next_tasks :
          {U : Type 0} → List (TaskOutput U J) → Result JunctureError (List (PendingTask S J))
      compute_next_tasks completed = do f ← route_outputs completed empty_frontier; ok f.next_tasks
