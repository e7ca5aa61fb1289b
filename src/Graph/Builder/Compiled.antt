-- ===== src/Graph/Builder/Compiled.antt =====
-- crates/juncture-core/src/graph/builder.rs: what `compile` returns, for a graph that the methods
-- of `StateGraph` build.
use juncture.Prelude.{
  ℕ, String, ◌≡◌, refl, sym, ap, ◌∙◌, true, Option, none, some, List, [], ◌∷◌, arith, set, Map,
  contains,
}
use mathlib.Core.Path.{subst⁻¹}
use mathlib.Core.Option.{some-injective}
use juncture.Prelude.Result.{Result, ok, err, ◌>>=◌}
use juncture.State.Fields.{State}
use juncture.Pregel.Types.{end_node}
use juncture.Graph.Topology.{TopologyError, Edge, check_entry_point, check_edge_targets}
use juncture.Graph.Topology.Checks.{is_ok, known, is_ok-check_edge_targets}
use juncture.Graph.Topology.Validate.{Checked, then_check, validate}
use juncture.Graph.Builder.{
  StateGraph, new_graph, check_names, check_registered, build_trigger_table, CompiledGraph,
  compile_inner, fallbacks_of, validate_keys,
}
use juncture.Graph.Builder.Entering.{initial_nodes, initial_nodes-build_trigger_table}
use juncture.Graph.Builder.Building.{Call, build, build-initial_nodes, starts_at-known}

then_check-ok :
    (o : Option (Result TopologyError Checked))
    (next : Checked → Option (Result TopologyError Checked))
    → then_check o next ≡ some (ok tt)
    → (o ≡ some (ok tt)) × (next tt ≡ some (ok tt))
then_check-ok none next e = ground arith
then_check-ok (some (err x)) next e = ground arith
then_check-ok (some (ok u)) next e = (refl, e)

bind-ok :
    (r : Result TopologyError Checked) (next : Checked → Result TopologyError Checked)
    → is_ok (r >>= next) ≡ true
    → (is_ok r ≡ true) × (is_ok (next tt) ≡ true)
unfolding is_ok
bind-ok (ok u) next e = (refl, e)
bind-ok (err x) next e = ground arith

validate-ok :
    {S : Type 0} (nodes : List String) (edges : List (Edge S)) (entry_point : Option String)
    → (fallbacks : Map (Option String)) → validate nodes edges entry_point fallbacks ≡ some (ok tt)
    → (check_entry_point entry_point ≡ ok tt) × (check_edge_targets nodes edges ≡ ok tt)
unfolding validate
validate-ok nodes edges entry_point fallbacks e =
    let (entry, later) = then_check-ok (some (check_entry_point entry_point)) _ e in
    let (targets, rest) = then_check-ok (some (check_edge_targets nodes edges)) _ later in
    (some-injective _ _ entry, some-injective _ _ targets)

-- What a compilation that succeeds has checked, and what it returns.
abbrev Compiles :
    {S : Type 0} → StateGraph S → Option (Result TopologyError (CompiledGraph S)) → Type 0
Compiles g none = Unit
Compiles g (some (err e)) = Unit
Compiles g (some (ok c)) =
    (c.nodes ≡ g.nodes)
    × (c.trigger_table ≡ build_trigger_table g)
    × (check_edge_targets g.nodes g.edges ≡ ok tt)
    × ((n : String) × (g.entry_point ≡ some n) × (contains n g.nodes ≡ true))

entry-known :
    (nodes : List String) (entry_point : Option String)
    → check_entry_point entry_point ≡ ok tt
    → is_ok (check_registered nodes (elim entry_point [ none ↦ [] | some entry ↦ entry ∷ [] ]))
      ≡ true
    → (n : String) × (entry_point ≡ some n) × (contains n nodes ≡ true)
unfolding check_entry_point check_registered is_ok
entry-known nodes none e k = absurd (ground arith)
entry-known nodes (some n) e k = (n, refl, ground arith)

module _ {S U : Type 0} (ops : State S U) (field_names : List String) where
  validate_keys-entry :
      (g : StateGraph S)
      → is_ok (validate_keys ops field_names g) ≡ true
      → is_ok
          (check_registered g.nodes (elim g.entry_point [ none ↦ [] | some entry ↦ entry ∷ [] ]))
        ≡ true
  unfolding validate_keys
  validate_keys-entry g k =
      let (fields, later) = bind-ok _ _ k in
      let (others, last) = bind-ok _ _ fields in
      let (finishes, rest) = bind-ok _ _ others in (bind-ok (check_names g.nodes) _ finishes).1

  compile_inner-Compiles :
      (before after : List String) (g : StateGraph S)
      → Compiles g (compile_inner ops field_names before after g)
  unfolding compile_inner is_ok
  compile_inner-Compiles before after g =
      go (validate g.nodes g.edges g.entry_point (fallbacks_of g.builder_metadata)) refl
        (validate_keys ops field_names g) refl
    where
      go :
          (v : Option (Result TopologyError Checked))
          → validate g.nodes g.edges g.entry_point (fallbacks_of g.builder_metadata) ≡ v
          → (k : Result TopologyError Checked) → validate_keys ops field_names g ≡ k
          → Compiles g (elim v [
            | none ↦ none
            | some (err e) ↦ some (err e)
            | some (ok _) ↦ some (
                k >>= (λ _. ok (record {
                  nodes = g.nodes;
                  trigger_table = build_trigger_table g;
                  builder_metadata = g.builder_metadata;
                  interrupt_before = before;
                  interrupt_after = after;
                })))
          ])
      go none e k q = tt
      go (some (err x)) e k q = tt
      go (some (ok u)) e (err x) q = tt
      go (some (ok u)) e (ok w) q =
          let (entry, targets) =
            validate-ok g.nodes g.edges g.entry_point (fallbacks_of g.builder_metadata) e in
          (
            refl,
            refl,
            targets,
            entry-known g.nodes g.entry_point entry (validate_keys-entry g (ap is_ok q)),
          )

  -- A graph that is built by any calls of the builder's methods and that compiles starts its runs
  -- with at least one task of a registered node, the entry point, and every other node that they
  -- start with is registered or is the end marker.
  pub compile_inner-initial_nodes :
      (V : Type 0) (uuid : ℕ → String) (before after : List String) (calls : List (Call S))
      (g : StateGraph S) (c : CompiledGraph S)
      → build calls new_graph ≡ ok g
      → compile_inner ops field_names before after g ≡ some (ok c)
      → ((n : String) × (g.entry_point ≡ some n)
          × (contains n c.nodes ≡ true)
          × (contains n (initial_nodes S V uuid c.trigger_table) ≡ true))
        × ((m : String)
            → contains m (initial_nodes S V uuid c.trigger_table) ≡ true
            → known c.nodes end_node m ≡ true)
  unfolding is_ok
  compile_inner-initial_nodes V uuid before after calls g c built compiled =
      let (nodes, table, targets, (n, set, registered)) =
        subst⁻¹ (λ (o : Option (Result TopologyError (CompiledGraph S))). Compiles g o)
          (sym compiled) (compile_inner-Compiles before after g) in
      (
        (
          n,
          set,
          ap (contains n) nodes ∙ registered,
          ap (λ t. contains n (initial_nodes S V uuid t)) table
              ∙ build-initial_nodes S V uuid calls g n built set,
        ),
        λ m starts.
            ap (λ names. known names end_node m) nodes
            ∙ starts_at-known m g.nodes g.edges
                (sym (is_ok-check_edge_targets g.nodes g.edges) ∙ ap is_ok targets)
                (sym (initial_nodes-build_trigger_table S V uuid g m)
                  ∙ sym (ap (λ t. contains m (initial_nodes S V uuid t)) table)
                  ∙ starts),
      )
