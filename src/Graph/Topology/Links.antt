-- ===== src/Graph/Topology/Links.antt =====
-- crates/juncture-core/src/graph/topology.rs: the adjacency that the search reads, against the
-- edges it is built from.
use juncture.Prelude.{
  String, ◌≡◌, refl, ap, ◌∙◌, Bool, true, false, not, ◌&&◌, ◌||◌, Option, none, some, List, [], ◌∷◌,
  ◌++◌, arith, str_eq, eq_iff, if◌then◌else◌, Map, lookup, insert, lookup-insert, or_empty,
  contains,
}
use juncture.Pregel.Types.{start_node, end_node, push_entry}
use juncture.Pregel.Schedule.Dedup.{contains-append}
use juncture.Graph.Topology.{
  Edge, fixed, conditional, Adjacency, neighbors, touch, touch_all, touch_targets, push_targets,
  add_edge, add_edges, add_fallbacks, build_adjacency,
}

-- Some branch of a conditional edge leads to `v`, which is not the end.
unfoldable pub path_leads : Map String → String → Bool
path_leads [] v = false
path_leads ((branch, target) ∷ rest) v =
    (not (str_eq target end_node) && str_eq target v) || path_leads rest v

-- An edge leads from node `u` to node `v`.
unfoldable pub edge_leads : {S : Type 0} → Edge S → String → String → Bool
edge_leads (fixed from to) u v =
    not (str_eq from start_node) && str_eq from u && (not (str_eq to end_node) && str_eq to v)
edge_leads (conditional from router path_map) u v =
    not (str_eq from start_node) && str_eq from u && path_leads path_map v

unfoldable pub edges_lead : {S : Type 0} → List (Edge S) → String → String → Bool
edges_lead [] u v = false
edges_lead (edge ∷ edges) u v = edge_leads edge u v || edges_lead edges u v

-- `v` is the fallback of `u`.
unfoldable pub falls_back : Map (Option String) → String → String → Bool
falls_back [] u v = false
falls_back ((node, none) ∷ rest) u v = falls_back rest u v
falls_back ((node, some fallback) ∷ rest) u v =
    (str_eq node u && str_eq fallback v) || falls_back rest u v

abbrev pub adjacent : Adjacency → String → String → Bool
adjacent adjacency u v = contains v (neighbors adjacency u)

neighbors-insert :
    (k u : String) (vs : List String) (m : Adjacency)
    → neighbors (insert k vs m) u ≡ (if str_eq k u then vs else neighbors m u)
neighbors-insert k u vs m =
    ap (λ (o : Option (List String)). or_empty o) (lookup-insert k u vs m) ∙ go (str_eq k u)
  where
    go :
        (b : Bool)
        → or_empty (if b then some vs else lookup u m) ≡ (if b then vs else neighbors m u)
    go true = refl
    go false = refl

adjacent-touch : (k u v : String) (m : Adjacency) → adjacent (touch k m) u v ≡ adjacent m u v
unfolding touch
adjacent-touch k u v m = go (str_eq k u) refl
  where
    go : (b : Bool) → str_eq k u ≡ b → adjacent (touch k m) u v ≡ adjacent m u v
    go true e =
        ap (contains v) (neighbors-insert k u (neighbors m k) m) ∙ rw (e, (eq_iff k u).0 e) refl
    go false e = ap (contains v) (neighbors-insert k u (neighbors m k) m) ∙ rw e refl

pushed : Option (List String) → String → List String
pushed o t = elim o [ none ↦ t ∷ [] | some vs ↦ vs ++ t ∷ [] ]

contains-pushed :
    (o : Option (List String)) (t v : String)
    → contains v (pushed o t) ≡ (str_eq t v || contains v (or_empty o))
unfolding pushed
contains-pushed none t v = refl
contains-pushed (some vs) t v = ground (arith, contains-append v vs (t ∷ []))

adjacent-push_entry :
    (k t u v : String) (m : Adjacency)
    → adjacent (push_entry k t m) u v ≡ ((str_eq k u && str_eq t v) || adjacent m u v)
unfolding push_entry pushed
adjacent-push_entry k t u v m =
    ap (contains v) (neighbors-insert k u (pushed (lookup k m) t) m) ∙ go (str_eq k u) refl
  where
    go :
        (b : Bool)
        → str_eq k u ≡ b
        → contains v (if b then pushed (lookup k m) t else neighbors m u)
          ≡ ((b && str_eq t v) || adjacent m u v)
    go true e = contains-pushed (lookup k m) t v ∙ rw ((eq_iff k u).0 e) refl
    go false e = refl

adjacent-touch_all :
    (ks : List String) (u v : String) (m : Adjacency)
    → adjacent (touch_all ks m) u v ≡ adjacent m u v
unfolding touch_all
adjacent-touch_all [] u v m = refl
adjacent-touch_all (k ∷ ks) u v m = adjacent-touch_all ks u v (touch k m) ∙ adjacent-touch k u v m

adjacent-touch_targets :
    (path_map : Map String) (u v : String) (m : Adjacency)
    → adjacent (touch_targets path_map m) u v ≡ adjacent m u v
unfolding touch_targets
adjacent-touch_targets [] u v m = refl
adjacent-touch_targets ((branch, target) ∷ rest) u v m =
    adjacent-touch_targets rest u v (touch target m) ∙ adjacent-touch target u v m

adjacent-push_targets :
    (from : String) (path_map : Map String) (u v : String) (m : Adjacency)
    → adjacent (push_targets from path_map m) u v
      ≡ ((str_eq from u && path_leads path_map v) || adjacent m u v)
unfolding push_targets path_leads
adjacent-push_targets from [] u v m = ground arith
adjacent-push_targets from ((branch, target) ∷ rest) u v m = ground (
  arith,
  adjacent-push_targets from rest u v m,
  adjacent-push_targets from rest u v (push_entry from target m),
  adjacent-push_entry from target u v m,
)

adjacent-add_edge :
    {S : Type 0} (e : Edge S) (u v : String) (m : Adjacency)
    → adjacent (add_edge e m) u v ≡ (edge_leads e u v || adjacent m u v)
unfolding add_edge edge_leads
adjacent-add_edge (fixed from to) u v m =
    ground (arith, adjacent-touch to u v m, adjacent-push_entry from to u v m)
adjacent-add_edge (conditional from router path_map) u v m = ground (
  arith,
  adjacent-touch_targets path_map u v m,
  adjacent-push_targets from path_map u v (touch from m),
  adjacent-touch from u v m,
)

adjacent-add_edges :
    {S : Type 0} (es : List (Edge S)) (u v : String) (m : Adjacency)
    → adjacent (add_edges es m) u v ≡ (edges_lead es u v || adjacent m u v)
unfolding add_edges edges_lead
adjacent-add_edges [] u v m = refl
adjacent-add_edges (e ∷ es) u v m =
    ground (arith, adjacent-add_edges es u v (add_edge e m), adjacent-add_edge e u v m)

adjacent-add_fallbacks :
    (fallbacks : Map (Option String)) (u v : String) (m : Adjacency)
    → adjacent (add_fallbacks fallbacks m) u v ≡ (falls_back fallbacks u v || adjacent m u v)
unfolding add_fallbacks falls_back
adjacent-add_fallbacks [] u v m = refl
adjacent-add_fallbacks ((node, none) ∷ rest) u v m = adjacent-add_fallbacks rest u v m
adjacent-add_fallbacks ((node, some fallback) ∷ rest) u v m = ground (
  arith,
  adjacent-add_fallbacks rest u v (push_entry node fallback m),
  adjacent-push_entry node fallback u v m,
)

-- The adjacency holds exactly the steps that an edge or a fallback allows: no step leaves the start
-- marker or enters the end marker, but for a fallback.
pub adjacent-build_adjacency :
    {S : Type 0} (nodes : List String) (edges : List (Edge S)) (fallbacks : Map (Option String))
    → (u v : String)
    → adjacent (build_adjacency nodes edges fallbacks) u v
      ≡ (edges_lead edges u v || falls_back fallbacks u v)
unfolding build_adjacency lookup
adjacent-build_adjacency nodes edges fallbacks u v = ground (
  arith,
  adjacent-add_fallbacks fallbacks u v (add_edges edges (touch_all nodes [])),
  adjacent-add_edges edges u v (touch_all nodes []),
  adjacent-touch_all nodes u v [],
)
