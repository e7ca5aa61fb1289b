-- ===== src/Pregel/Schedule/Triggers.antt =====
-- `TriggerToNodes` inverts the incoming edges of the trigger table.
use juncture.Prelude.{
  String, ◌≡◌, refl, ap, ◌∙◌, Bool, true, false, ◌&&◌, ◌||◌, Option, some, List, [], ◌∷◌, arith,
  str_eq, eq_iff, if◌then◌else◌, any, Map, lookup, lookup-insert, lookup-nil, or_empty, contains,
  add, contains-add,
}
use mathlib.Core.List.{append-nil}
use juncture.Pregel.Types.{TriggerSource, TriggerTable}
use juncture.Pregel.Schedule.{
  TriggerToNodes, add_entry, source_name, add_sources, from_incoming, from_trigger_table,
  triggered_nodes,
}

-- Some incoming edge or send of `node` comes from `channel`.
abbrev pub feeds : Map (List TriggerSource) → String → String → Bool
feeds [] channel node = false
feeds ((name, sources) ∷ rest) channel node =
    (str_eq name node && any (λ s. str_eq (source_name s) channel) sources)
    || feeds rest channel node

abbrev nodes_of : String → TriggerToNodes → List String
nodes_of channel m = or_empty (lookup channel m)

contains-if :
    (same : Bool) (from channel node n : String) (m : TriggerToNodes)
    → (same ≡ true → from ≡ channel)
    → contains n (or_empty (if same then some (add node (nodes_of from m)) else lookup channel m))
      ≡ ((same && str_eq node n) || contains n (nodes_of channel m))
contains-if true from channel node n m e =
    contains-add node n (nodes_of from m)
    ∙ ap (λ (k : String). str_eq node n || contains n (nodes_of k m)) (e refl)
contains-if false from channel node n m e = refl

contains-add_entry :
    (from node channel n : String) (m : TriggerToNodes)
    → contains n (nodes_of channel (add_entry from node m))
      ≡ ((str_eq from channel && str_eq node n) || contains n (nodes_of channel m))
unfolding add_entry
contains-add_entry from node channel n m =
    ap (λ (o : Option (List String)). contains n (or_empty o))
      (lookup-insert from channel (add node (nodes_of from m)) m)
    ∙ contains-if (str_eq from channel) from channel node n m (eq_iff from channel).0

contains-add_sources :
    (node : String) (sources : List TriggerSource) (channel n : String) (m : TriggerToNodes)
    → contains n (nodes_of channel (add_sources node sources m)) ≡ (
        (str_eq node n && any (λ s. str_eq (source_name s) channel) sources)
        || contains n (nodes_of channel m))
unfolding add_sources
contains-add_sources node [] channel n m = ground arith
contains-add_sources node (s ∷ sources) channel n m = ground (
  arith,
  contains-add_sources node sources channel n (add_entry (source_name s) node m),
  contains-add_entry (source_name s) node channel n m,
)

contains-from_incoming :
    (incoming : Map (List TriggerSource)) (channel n : String) (m : TriggerToNodes)
    → contains n (nodes_of channel (from_incoming incoming m))
      ≡ (feeds incoming channel n || contains n (nodes_of channel m))
unfolding from_incoming
contains-from_incoming [] channel n m = refl
contains-from_incoming ((node, sources) ∷ rest) channel n m = ground (
  arith,
  contains-from_incoming rest channel n (add_sources node sources m),
  contains-add_sources node sources channel n m,
)

-- A change of one channel triggers exactly the nodes that have an incoming edge or send from it.
pub triggered_nodes-from_trigger_table :
    {S : Type 0} (table : TriggerTable S) (channel n : String)
    → contains n (triggered_nodes (from_trigger_table table) (channel ∷ []))
      ≡ feeds table.incoming channel n
unfolding triggered_nodes from_trigger_table
triggered_nodes-from_trigger_table table channel n =
    ap (contains n) (append-nil (nodes_of channel (from_incoming table.incoming [])))
    ∙ contains-from_incoming table.incoming channel n []
    ∙ finish (feeds table.incoming channel n)
        (ap (λ (o : Option (List String)). contains n (or_empty o)) (lookup-nil channel))
  where
    finish :
        (b : Bool)
        → contains n (nodes_of channel []) ≡ false
        → (b || contains n (nodes_of channel [])) ≡ b
    finish b h = ground arith
