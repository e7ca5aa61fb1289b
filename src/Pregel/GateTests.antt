-- ===== src/Pregel/GateTests.antt =====
-- The gate and the budget of a superstep at concrete inputs. Costs are numbers of micros.
use juncture.Prelude.{
  ℕ, zero, suc, String, ◌≡◌, refl, sym, ap, ◌∙◌, ◌↔◌, false, Option, none, some, List, [], ◌∷◌,
  arith, ltb, leb, any, lookup,
}
use juncture.Pregel.Types.{JunctureError, execution, TaskOutput, stay, pull, pull_task}
use juncture.Graph.Breaker.{
  CircuitBreakerConfig, CircuitBreakerState, new_config, with_half_open_max_attempts, opened,
  half_open,
}
use juncture.Graph.Breaker.Invariant.{succeeded, failure_at, acts}
use juncture.Pregel.Gate.{Gate, check_circuit_breakers, record_circuit_breaker_results}
use juncture.Pregel.Gate.Outcomes.{reports_of, record_circuit_breaker_results-own}
use juncture.Pregel.Gate.Blocking.{check_circuit_breakers-half_open}
use juncture.State.Fields.{FieldsChanged}
use juncture.Pregel.Snapshots.{should_take_full_snapshot, reset_delta_counters}
use juncture.Pregel.Snapshots.Counting.{
  changes, superstep_counters, should_take_full_snapshot-changes,
}
use juncture.Pregel.BudgetTracker.{
  BudgetConfig, new_limits, new_tracker, with_max_tokens, with_max_steps, check,
}
use juncture.Pregel.BudgetTracker.Limits.{
  Report, used, spent, stepped, called, billed, total, tokens_of, steps_of, micros_of, Fits,
  reports, Within, check-reports,
}

abbrev show : ℕ → String
show n = "some"

abbrev config : CircuitBreakerConfig
config = with_half_open_max_attempts (new_config 3 10) 2

abbrev open_state : CircuitBreakerState
open_state = record {
  state = opened;
  consecutive_failures = 3;
  opened_at = some 100;
  half_open_attempts = 0;
}

abbrev probing : CircuitBreakerState
probing = record {
  state = half_open;
  consecutive_failures = 3;
  opened_at = some 100;
  half_open_attempts = 1;
}

abbrev at_node : CircuitBreakerState → Gate ℕ ℕ
at_node state = record {
  circuit_breaker_configs = ("b", config) ∷ [];
  circuit_breaker_states = ("b", state) ∷ [];
  pending_tasks = pull_task "1" "b" ∷ pull_task "2" "b" ∷ pull_task "3" "b" ∷ [];
}

found : lookup "b" (("b", config) ∷ []) ≡ some config
unfolding lookup
found = refl

held : (state : CircuitBreakerState) → lookup "b" (("b", state) ∷ []) ≡ some state
unfolding lookup
held state = refl

check_circuit_breakers-half_open_example :
    (check_circuit_breakers {U = ℕ} show 105 (at_node probing)).0.pending_tasks
    ≡ (at_node probing).pending_tasks
check_circuit_breakers-half_open_example =
    check_circuit_breakers-half_open ℕ show 105 "b" config probing (at_node probing) found
      (held probing) refl (omega arith) (refl, (refl, (refl, tt)))

abbrev result : String → String → Option JunctureError → TaskOutput ℕ ℕ
result id node error = record {
  task_id = id;
  node_name = node;
  command = record { update = none; goto = stay };
  trigger = pull;
  triggered_fields = [];
  error = error;
  circuit_blocked = false;
}

abbrev results : List (TaskOutput ℕ ℕ)
results = result "1" "b" (some (execution "no")) ∷ result "2" "a" none ∷ result "3" "b" none ∷ []

record_circuit_breaker_results-own_example :
    lookup "b" (record_circuit_breaker_results 105 (at_node probing) results).circuit_breaker_states
    ≡ some (acts config probing (failure_at 105 ∷ succeeded ∷ []))
unfolding reports_of
record_circuit_breaker_results-own_example =
    record_circuit_breaker_results-own 105 "b" config probing (at_node probing) results found
      (held probing)

abbrev limits : BudgetConfig ℕ
limits = with_max_steps (with_max_tokens new_limits 100) 5

abbrev reported : List (Report ℕ)
reported = used 30 ∷ stepped ∷ called 10 20 ∷ billed 60 7 ∷ spent 2 ∷ []

reported-Fits : Fits (λ (c : ℕ). c) (new_tracker limits) reported
reported-Fits = (omega arith, omega arith, omega arith)

check-reports_example :
    (check
        (λ (m : ℕ). m)
        (λ (a b : ℕ). ltb b a)
        (reports (λ (c : ℕ). c) (new_tracker limits) reported)
        9
      ≡ none)
    ↔ Within
        (λ (m : ℕ). m)
        (λ (a b : ℕ). ltb b a)
        limits
        (total tokens_of reported)
        (total (micros_of (λ (c : ℕ). c)) reported)
        9
        (total steps_of reported)
check-reports_example =
    check-reports (λ (m : ℕ). m) (λ (a b : ℕ). ltb b a) (λ (c : ℕ). c) limits reported 9
      reported-Fits

-- Names in unary, which differ.
unfoldable pub tally : ℕ → String
tally zero = ""
tally (suc n) = String.◌∷◌ "i" (tally n)

tally_length : String → ℕ
tally_length String.[] = 0
tally_length (String.◌∷◌ c s) = suc (tally_length s)

tally_length-tally : (n : ℕ) → tally_length (tally n) ≡ n
unfolding tally tally_length
tally_length-tally zero = refl
tally_length-tally (suc n) = ap suc (tally_length-tally n)

pub tally-injective : (i j : ℕ) → tally i ≡ tally j → i ≡ j
tally-injective i j e = sym (tally_length-tally i) ∙ ap tally_length e ∙ tally_length-tally j

abbrev changed : List FieldsChanged
changed = record { mask = 1 } ∷ record { mask = 3 } ∷ []

should_take_full_snapshot-changes_example :
    should_take_full_snapshot tally
      ((1, 2) ∷ (0, 2) ∷ [])
      (superstep_counters tally 2 2 (record { mask = 2 } ∷ changed) (reset_delta_counters []))
    ≡ any
        (λ (spec : ℕ × ℕ). leb spec.1 (changes spec.0 (record { mask = 2 } ∷ changed)))
        ((1, 2) ∷ (0, 2) ∷ [])
should_take_full_snapshot-changes_example =
    should_take_full_snapshot-changes tally tally-injective 2 2 (record { mask = 2 }) changed
      ((1, 2) ∷ (0, 2) ∷ []) [] (omega arith) (omega arith, (omega arith, tt))
