-- ===== src/Pregel/Gate/Blocking.antt =====
-- Which tasks a superstep's circuit breakers let through.
use juncture.Prelude.{
  ℕ, ◌<◌, String, ◌≡◌, refl, ap, ◌∙◌, Bool, true, false, not, some, List, [], ◌∷◌, arith, str_eq,
  eq_iff, if◌then◌else◌, is_empty, filter, All, Map, lookup, insert, lookup-insert, contains,
}
use juncture.Pregel.Types.{PendingTask, TaskOutput}
use juncture.Graph.Breaker.{CircuitBreakerConfig, CircuitBreakerState, half_open, should_allow}
use juncture.Pregel.Gate.{Gate, blocked_ids, blocked_output, check_tasks, check_circuit_breakers}

module _ {S J : Type 0} where
  -- Every task of the node has its id among some ids.
  abbrev IdsOf : String → List String → List (PendingTask S J) → Type 0
  IdsOf node ids tasks =
      All (λ (t : PendingTask S J). str_eq t.node_name node ≡ true → contains t.id ids ≡ true) tasks

blocked_ids-if :
    {U J : Type 0} (b : Bool) (o : TaskOutput U J) (outputs : List (TaskOutput U J))
    → blocked_ids (if b then outputs else o ∷ outputs)
      ≡ (if b then blocked_ids outputs else o.task_id ∷ blocked_ids outputs)
blocked_ids-if true o outputs = refl
blocked_ids-if false o outputs = refl

module _ {S J : Type 0} (U : Type 0) (show : ℕ → String) (configs : Map CircuitBreakerConfig)
    (now : ℕ) where
  abbrev blocked : Map CircuitBreakerState → List (PendingTask S J) → List String
  blocked states tasks = blocked_ids (check_tasks {U = U} show configs now states tasks).1

  blocked-asked :
      (config : CircuitBreakerConfig) (state : CircuitBreakerState)
      (states : Map CircuitBreakerState) (task : PendingTask S J) (tasks : List (PendingTask S J))
      → lookup task.node_name configs ≡ some config
      → lookup task.node_name states ≡ some state
      → let answer = should_allow state config now in
        let later = blocked (insert task.node_name answer.0 states) tasks in
        blocked states (task ∷ tasks) ≡ (if answer.1 then later else task.id ∷ later)
  unfolding check_tasks
  blocked-asked config state states task tasks e f =
      rw (e, f, check_tasks)
        (blocked_ids-if (should_allow state config now).1
          (blocked_output show task (should_allow state config now).0.consecutive_failures)
          (check_tasks {U = U} show configs now
            (insert task.node_name (should_allow state config now).0 states) tasks).1)

pub configured :
    (node : String) (config : CircuitBreakerConfig) (configs : Map CircuitBreakerConfig)
    → lookup node configs ≡ some config
    → is_empty configs ≡ false
unfolding lookup
configured node config [] h = ground arith
configured node config (c ∷ cs) h = refl

module _ {S J : Type 0} (U : Type 0) (show : ℕ → String) (now : ℕ) where
  -- The tasks of a node whose breaker is half-open and below its attempts, and of no other.
  check_tasks-half_open :
      (configs : Map CircuitBreakerConfig) (node : String) (config : CircuitBreakerConfig)
      (state : CircuitBreakerState) (states : Map CircuitBreakerState)
      (tasks : List (PendingTask S J))
      → lookup node configs ≡ some config
      → lookup node states ≡ some state
      → should_allow state config now ≡ (state, true)
      → All (λ (t : PendingTask S J). t.node_name ≡ node) tasks
      → blocked U show configs now states tasks ≡ []
  unfolding check_tasks
  check_tasks-half_open configs node config state states [] c l r a = refl
  check_tasks-half_open configs node config state states (t ∷ tasks) c l r a =
      let known : lookup t.node_name configs ≡ some config =
        ap (λ (n : String). lookup n configs) a.0 ∙ c in
      let held : lookup t.node_name states ≡ some state =
        ap (λ (n : String). lookup n states) a.0 ∙ l in
      let kept : lookup node (insert t.node_name state states) ≡ some state =
        lookup-insert t.node_name node state states ∙ ground (arith, eq_iff t.node_name node) in
      blocked-asked U show configs now config state states t tasks known held
      ∙ rw r (
          check_tasks-half_open configs node config state (insert t.node_name state states) tasks c
            kept r a.1)

  filter-none :
      (tasks : List (PendingTask S J)) → filter (λ task. not (contains task.id [])) tasks ≡ tasks
  filter-none [] = refl
  filter-none (t ∷ tasks) = ap (λ (ts : List (PendingTask S J)). t ∷ ts) (filter-none tasks)

  -- Where a node's breaker is half-open with an attempt left and only tasks of that node are pending,
  -- every one of them passes, however few attempts are left.
  pub check_circuit_breakers-half_open :
      (node : String) (config : CircuitBreakerConfig) (state : CircuitBreakerState) (g : Gate S J)
      → lookup node g.circuit_breaker_configs ≡ some config
      → lookup node g.circuit_breaker_states ≡ some state
      → state.state ≡ half_open
      → state.half_open_attempts < config.half_open_max_attempts
      → All (λ (t : PendingTask S J). t.node_name ≡ node) g.pending_tasks
      → (check_circuit_breakers {U = U} show now g).0.pending_tasks ≡ g.pending_tasks
  unfolding check_circuit_breakers should_allow
  check_circuit_breakers-half_open node config state g c l h k a =
      let passes : should_allow state config now ≡ (state, true) = ground arith in
      rw (configured node config g.circuit_breaker_configs c) (
        ap (λ (ids : List String). filter (λ task. not (contains task.id ids)) g.pending_tasks)
          (check_tasks-half_open g.circuit_breaker_configs node config state
            g.circuit_breaker_states g.pending_tasks c l passes a)
        ∙ filter-none g.pending_tasks)
