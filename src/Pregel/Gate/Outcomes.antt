-- ===== src/Pregel/Gate/Outcomes.antt =====
-- What the results of a superstep do to the breaker of one node.
use juncture.Prelude.{
  ℕ, String, ◌≡◌, refl, sym, ap, ◌∙◌, inl, inr, true, false, Option, none, some, List, [], ◌∷◌,
  arith, str_eq, eq_iff, if◌then◌else◌, Bool-cases, Map, lookup, insert, lookup-insert,
}
use mathlib.Core.Path.{ap₂}
use juncture.Pregel.Types.{TaskOutput, JunctureError}
use juncture.Graph.Breaker.{
  CircuitBreakerConfig, CircuitBreakerState, record_success, record_failure, mark_half_open_attempt,
}
use juncture.Graph.Breaker.Invariant.{Action, succeeded, failure_at, act, acts}
use juncture.Pregel.Gate.Blocking.{configured}
use juncture.Pregel.Gate.{Gate, record_outcome, record_outputs, record_circuit_breaker_results}

module _ {U J : Type 0} (now : ℕ) where
  -- What the outputs report of the node: a failure for each of its outputs with an error, and a
  -- success for each other one.
  abbrev reported : TaskOutput U J → Action
  reported o = elim o.error [ some e ↦ failure_at now | none ↦ succeeded ]

  unfoldable pub reports_of : String → List (TaskOutput U J) → List Action
  reports_of node [] = []
  reports_of node (o ∷ outputs) =
      let rest = reports_of node outputs in
      if str_eq o.node_name node then reported o ∷ rest else rest

  -- The breaker of a node after the outputs of that node, one by one.
  unfoldable outcomes_of :
      String
      → CircuitBreakerConfig
      → CircuitBreakerState
      → List (TaskOutput U J)
      → CircuitBreakerState
  outcomes_of node config state [] = state
  outcomes_of node config state (o ∷ outputs) =
      outcomes_of node config
        (if str_eq o.node_name node then record_outcome state config now o else state) outputs

  lookup-record_outputs :
      (configs : Map CircuitBreakerConfig) (node : String) (config : CircuitBreakerConfig)
      (state : CircuitBreakerState) (states : Map CircuitBreakerState)
      (outputs : List (TaskOutput U J))
      → lookup node configs ≡ some config
      → lookup node states ≡ some state
      → lookup node (record_outputs configs now states outputs)
        ≡ some (outcomes_of node config state outputs)
  unfolding record_outputs outcomes_of
  lookup-record_outputs configs node config state states [] c l = l
  lookup-record_outputs configs node config state states (o ∷ outputs) c l =
      go (lookup o.node_name configs) refl (lookup o.node_name states) refl
        (λ next states' l'. lookup-record_outputs configs node config next states' outputs c l')
    where
      next_of : CircuitBreakerState
      next_of = if str_eq o.node_name node then record_outcome state config now o else state

      name_of : str_eq o.node_name node ≡ true → o.node_name ≡ node
      name_of m = (eq_iff o.node_name node).0 m

      config_at : str_eq o.node_name node ≡ true → lookup o.node_name configs ≡ some config
      config_at m = ap (λ (n : String). lookup n configs) (name_of m) ∙ c

      state_at : str_eq o.node_name node ≡ true → lookup o.node_name states ≡ some state
      state_at m = ap (λ (n : String). lookup n states) (name_of m) ∙ l

      of_another : str_eq o.node_name node ≡ false → lookup node states ≡ some next_of
      of_another m = l ∙ rw m refl

      go :
          (p : Option CircuitBreakerConfig)
          → lookup o.node_name configs ≡ p
          → (q : Option CircuitBreakerState) → lookup o.node_name states ≡ q
          → ((next : CircuitBreakerState) (states' : Map CircuitBreakerState)
              → lookup node states' ≡ some next
              → lookup node (record_outputs configs now states' outputs)
                ≡ some (outcomes_of node config next outputs))
          → lookup node (elim p [
            | none ↦ record_outputs configs now states outputs
            | some k ↦ elim q [
              | none ↦ record_outputs configs now states outputs
              | some b ↦
                  record_outputs configs now
                    (insert o.node_name (record_outcome b k now o) states)
                    outputs
            ]
          ])
            ≡ some (outcomes_of node config next_of outputs)
      go none e q f later = later next_of states (elim (Bool-cases (str_eq o.node_name node)) [
        | inl m ↦ let clash : none ≡ some config = sym e ∙ config_at m in absurd (ground arith)
        | inr m ↦ of_another m
      ])
      go (some k) e none f later =
          later next_of states (elim (Bool-cases (str_eq o.node_name node)) [
            | inl m ↦ let clash : none ≡ some state = sym f ∙ state_at m in absurd (ground arith)
            | inr m ↦ of_another m
          ])
      go (some k) e (some b) f later =
          later next_of (insert o.node_name (record_outcome b k now o) states) (
            lookup-insert o.node_name node (record_outcome b k now o) states
            ∙ elim (Bool-cases (str_eq o.node_name node)) [
              | inl m ↦
                  let is_k : some k ≡ some config = sym e ∙ config_at m in
                  let is_b : some b ≡ some state = sym f ∙ state_at m in
                  let same_k : k ≡ config = cc in
                  let same_b : b ≡ state = cc in
                  rw m (
                    ap₂
                      (λ (d : CircuitBreakerConfig) (t : CircuitBreakerState).
                        some (record_outcome t d now o))
                      same_k same_b)
              | inr m ↦ rw m l
            ])

  record_outcome-act :
      (config : CircuitBreakerConfig) (state : CircuitBreakerState) (o : TaskOutput U J)
      → record_outcome state config now o ≡ act config state (reported o)
  unfolding record_outcome
  record_outcome-act config state o = go o.error
    where
      go :
          (e : Option JunctureError)
          → elim e [
            | some x ↦ record_failure (mark_half_open_attempt state) config now
            | none ↦ record_success (mark_half_open_attempt state)
          ]
            ≡ act config state (elim e [ some x ↦ failure_at now | none ↦ succeeded ])
      go none = refl
      go (some x) = refl

  outcomes_of-acts :
      (node : String) (config : CircuitBreakerConfig) (state : CircuitBreakerState)
      (outputs : List (TaskOutput U J))
      → outcomes_of node config state outputs ≡ acts config state (reports_of node outputs)
  unfolding outcomes_of acts reports_of
  outcomes_of-acts node config state [] = refl
  outcomes_of-acts node config state (o ∷ outputs) = elim (Bool-cases (str_eq o.node_name node)) [
    | inl m ↦
        rw (m, record_outcome-act config state o)
          (outcomes_of-acts node config (act config state (reported o)) outputs)
    | inr m ↦ rw m (outcomes_of-acts node config state outputs)
  ]

  -- The breaker of a configured node is left as its own outputs leave it, in order: each counts as an
  -- attempt of a half-open circuit, then as a failure where it has an error and as a success where
  -- it has none. The outputs of other nodes do not touch it.
  pub record_circuit_breaker_results-own :
      {S : Type 0} (node : String) (config : CircuitBreakerConfig) (state : CircuitBreakerState)
      (g : Gate S J) (outputs : List (TaskOutput U J))
      → lookup node g.circuit_breaker_configs ≡ some config
      → lookup node g.circuit_breaker_states ≡ some state
      → lookup node (record_circuit_breaker_results now g outputs).circuit_breaker_states
        ≡ some (acts config state (reports_of node outputs))
  unfolding record_circuit_breaker_results
  record_circuit_breaker_results-own node config state g outputs c l =
      rw (configured node config g.circuit_breaker_configs c) (
        lookup-record_outputs g.circuit_breaker_configs node config state g.circuit_breaker_states
          outputs c l)
      ∙ ap (λ (b : CircuitBreakerState). some b) (outcomes_of-acts node config state outputs)
