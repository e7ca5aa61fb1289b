-- ===== src/Pregel/Schedule/Routing.antt =====
-- `compute_next_tasks` computes exactly what `Requests` describes, errors included.
use juncture.Prelude.{
  ℕ, String, ◌≡◌, refl, sym, ap, ◌∙◌, Bool, true, false, List, [], ◌∷◌, ◌++◌, arith, str_eq,
  if◌then◌else◌, Map,
}
use juncture.Prelude.Result.{Result, ok, err, ◌>>=◌, map_ok}
use juncture.Pregel.Types.{
  JunctureError, routed_to_unknown, end_node, RouteResult, targets, CompiledEdge, fixed,
  conditional,
}
use juncture.Pregel.Schedule.{
  Frontier, target_of, activate, activate_all, process_labels, process_edge, process_edges,
}
use juncture.Pregel.Schedule.Requests.{unroutable, label_requests, edge_requests, edges_requests}

module _ {S J : Type 0} (uuid : ℕ → String) where
  activate_all-append :
      (xs ys : List String) (f : Frontier S J)
      → activate_all uuid (xs ++ ys) f ≡ activate_all uuid ys (activate_all uuid xs f)
  unfolding activate_all
  activate_all-append [] ys f = refl
  activate_all-append (x ∷ xs) ys f = activate_all-append xs ys (activate uuid x f)

  -- One label, whatever the tests say.
  label_step :
      (bad last : Bool) (e : JunctureError) (target : String)
      (rest : Frontier S J → Result JunctureError (Frontier S J))
      (names : Result JunctureError (List String))
      → ((f : Frontier S J) → rest f ≡ map_ok (λ ns. activate_all uuid ns f) names)
      → (f : Frontier S J)
      → (if bad then err e else rest (if last then f else activate uuid target f))
        ≡ map_ok
            (λ ns. activate_all uuid ns f)
            (if bad then err e else map_ok (λ ns. if last then ns else target ∷ ns) names)
  unfolding activate_all
  label_step true last e target rest names ih f = refl
  label_step false true e target rest (ok ns) ih f = ih f
  label_step false true e target rest (err x) ih f = ih f
  label_step false false e target rest (ok ns) ih f = ih (activate uuid target f)
  label_step false false e target rest (err x) ih f = ih (activate uuid target f)

  -- Two activations in a row.
  bind_step :
      (first : Result JunctureError (List String)) (second : Result JunctureError (List String))
      (rest : Frontier S J → Result JunctureError (Frontier S J))
      → ((f : Frontier S J) → rest f ≡ map_ok (λ ns. activate_all uuid ns f) second)
      → (f : Frontier S J)
      → (map_ok (λ ns. activate_all uuid ns f) first >>= rest)
        ≡ map_ok
            (λ ns. activate_all uuid ns f)
            (first >>= λ names. map_ok (λ more. names ++ more) second)
  bind_step (ok ns) (ok ms) rest ih f =
      ih (activate_all uuid ns f) ∙ ap ok (sym (activate_all-append ns ms f))
  bind_step (ok ns) (err e) rest ih f = ih (activate_all uuid ns f)
  bind_step (err e) second rest ih f = refl

  module _ (nodes : List String) where
    process_labels-eq :
        (from : String) (path_map : Map String) (labels : List String) (f : Frontier S J)
        → process_labels uuid nodes from path_map labels f
          ≡ map_ok (λ names. activate_all uuid names f) (label_requests nodes from path_map labels)
    unfolding process_labels label_requests activate_all
    process_labels-eq from path_map [] f = refl
    process_labels-eq from path_map (label ∷ labels) f =
        label_step (unroutable nodes path_map label) (str_eq (target_of path_map label) end_node)
          (routed_to_unknown from label) (target_of path_map label)
          (λ g. process_labels uuid nodes from path_map labels g)
          (label_requests nodes from path_map labels)
          (λ g. process_labels-eq from path_map labels g) f

    process_edge-eq :
        (e : CompiledEdge S) (state : S) (triggered : List String) (from : String)
        (f : Frontier S J)
        → process_edge uuid nodes e state triggered from f
          ≡ map_ok (λ names. activate_all uuid names f) (edge_requests nodes e state triggered from)
    unfolding process_edge edge_requests activate_all
    process_edge-eq (fixed target) state triggered from f = ground arith
    process_edge-eq (conditional route path_map) state triggered from f = routed (route state)
      where
        routed :
            (r : Result JunctureError RouteResult)
            → (r >>= λ result. process_labels uuid nodes from path_map (targets result) f)
              ≡ map_ok
                  (λ names. activate_all uuid names f)
                  (r >>= λ result. label_requests nodes from path_map (targets result))
        routed (ok result) = process_labels-eq from path_map (targets result) f
        routed (err e) = refl

    pub process_edges-eq :
        (edges : List (CompiledEdge S)) (state : S) (triggered : List String) (from : String)
        (f : Frontier S J)
        → process_edges uuid nodes edges state triggered from f
          ≡ map_ok
              (λ names. activate_all uuid names f)
              (edges_requests nodes edges state triggered from)
    unfolding process_edges edges_requests activate_all
    process_edges-eq [] state triggered from f = refl
    process_edges-eq (e ∷ edges) state triggered from f =
        ap
          (λ (r : Result JunctureError (Frontier S J)).
            r >>= λ g. process_edges uuid nodes edges state triggered from g)
          (process_edge-eq e state triggered from f)
        ∙ bind_step (edge_requests nodes e state triggered from)
            (edges_requests nodes edges state triggered from)
            (λ g. process_edges uuid nodes edges state triggered from g)
            (λ g. process_edges-eq edges state triggered from g) f
