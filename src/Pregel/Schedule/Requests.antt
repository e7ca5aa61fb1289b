-- ===== src/Pregel/Schedule/Requests.antt =====
-- What a list of task outputs asks for, without the state of `compute_next_tasks`: which nodes the
-- outputs route to, in order, and which tasks they send.
use juncture.Prelude.{
  ℕ, ◌+◌, String, Bool, not, ◌&&◌, Option, some, List, [], ◌∷◌, ◌++◌, str_eq, if◌then◌else◌, Map,
  contains_key, contains,
}
use juncture.Prelude.Result.{Result, ok, err, ◌>>=◌, map_ok}
use juncture.Pregel.Types.{
  JunctureError, routed_to_unknown, end_node, PendingTask, pull, push, SendTarget, Goto, stay, next,
  multiple, send, end, TaskOutput, targets, CompiledEdge, fixed, conditional, TriggerTable,
}
use juncture.Pregel.Schedule.{TriggerToNodes, triggered_nodes, target_of, edges_of}

module _ {S J : Type 0} where
  -- The names of the PULL tasks, in order.
  abbrev pub pulls : List (PendingTask S J) → List String
  pulls [] = []
  pulls (t ∷ ts) = elim t.trigger [ pull ↦ t.node_name ∷ pulls ts | push i ↦ pulls ts ]

  -- The PUSH tasks, in order: node, index and state.
  abbrev pub pushes : List (PendingTask S J) → List (String × ℕ × Option J)
  pushes [] = []
  pushes (t ∷ ts) = elim t.trigger [
    | pull ↦ pushes ts
    | push i ↦ (t.node_name, i, t.state_json) ∷ pushes ts
  ]

-- What `send` asks for: the targets, numbered from `idx`.
abbrev pub numbered : {J : Type 0} → ℕ → List (SendTarget J) → List (String × ℕ × Option J)
numbered idx [] = []
numbered idx (t ∷ ts) = (t.node, idx, some t.state) ∷ numbered (idx + 1) ts

abbrev pub sent_by : {J : Type 0} → Goto J → List (String × ℕ × Option J)
sent_by (send sends) = numbered 0 sends
sent_by _ = []

abbrev pub sent : {U J : Type 0} → List (TaskOutput U J) → List (String × ℕ × Option J)
sent [] = []
sent (o ∷ outputs) = sent_by o.command.goto ++ sent outputs

-- A label that is no key, names no node and is not the end.
abbrev pub unroutable : List String → Map String → String → Bool
unroutable nodes path_map label =
    not (contains_key label path_map)
    && not (contains (target_of path_map label) nodes)
    && not (str_eq (target_of path_map label) end_node)

module _ (nodes : List String) where
  -- The nodes that a router's labels stand for, or the first label that leads nowhere.
  unfoldable pub label_requests :
      String → Map String → List String → Result JunctureError (List String)
  label_requests from path_map [] = ok []
  label_requests from path_map (label ∷ labels) =
      let rest = label_requests from path_map labels in
      if unroutable nodes path_map label
      then err (routed_to_unknown from label)
      else map_ok
          (λ names.
            if str_eq (target_of path_map label) end_node
            then names
            else target_of path_map label ∷ names)
          rest

module _ {S : Type 0} (nodes : List String) where
  unfoldable pub edge_requests :
      CompiledEdge S → S → List String → String → Result JunctureError (List String)
  edge_requests (fixed target) state triggered from =
      ok (if contains target triggered && not (str_eq target end_node) then target ∷ [] else [])
  edge_requests (conditional route path_map) state triggered from =
      route state >>= λ result. label_requests nodes from path_map (targets result)

  unfoldable pub edges_requests :
      List (CompiledEdge S) → S → List String → String → Result JunctureError (List String)
  edges_requests [] state triggered from = ok []
  edges_requests (e ∷ edges) state triggered from =
      edge_requests e state triggered from >>= λ names.
      map_ok (λ more. names ++ more) (edges_requests edges state triggered from)

  module _ {J : Type 0} (table : TriggerTable S) (mapping : TriggerToNodes) (state : S) where
    unfoldable pub output_requests : String → Goto J → Result JunctureError (List String)
    output_requests from stay =
        edges_requests (edges_of table from) state (triggered_nodes mapping (from ∷ [])) from
    output_requests from (next target) = ok (target ∷ [])
    output_requests from (multiple names) = ok names
    output_requests from (send sends) = ok []
    output_requests from end = ok []

    unfoldable pub requests :
        {U : Type 0} → List (TaskOutput U J) → Result JunctureError (List String)
    requests [] = ok []
    requests (o ∷ outputs) = output_requests o.node_name o.command.goto >>= λ names.
        map_ok (λ more. names ++ more) (requests outputs)
