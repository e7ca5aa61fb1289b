-- ===== src/Pregel/BudgetTracker.antt =====
-- crates/juncture-core/src/pregel/budget.rs: the limits on an execution. `F` is the type of costs:
-- `to_micros` is the cast `(cost * 1_000_000.0) as u64`, `from_micros` the division back, and
-- `exceeds a b` is `a > b`. `elapsed` is the time since the start. Metrics are left out, and so is
-- the action on an exceeded limit. The totals are 64-bit atomics, which wrap.
pub mod Limits
use juncture.Prelude.{
  ℕ, ◌+◌, ◌%◌, ◌^◌, Bool, true, false, ◌||◌, Option, none, some, ltb, if◌then◌else◌,
}

abbrev pub atomic : ℕ → ℕ
atomic n = n % 2 ^ 64

pub record BudgetConfig (F : Type 0) : Type 0 where
  pub max_tokens : Option ℕ
  pub max_cost_usd : Option F
  pub max_duration : Option ℕ
  pub max_steps : Option ℕ

pub record BudgetUsage (F : Type 0) : Type 0 where
  pub tokens_used : ℕ
  pub cost_usd : F
  pub duration : ℕ
  pub steps_completed : ℕ

pub data BudgetExceededReason (F : Type 0) : Type 0 where
  tokens : ℕ → ℕ → BudgetExceededReason F
  cost : F → F → BudgetExceededReason F
  duration : ℕ → ℕ → BudgetExceededReason F
  steps : ℕ → ℕ → BudgetExceededReason F

pub record BudgetTracker (F : Type 0) : Type 0 where
  pub tokens_used : ℕ
  pub cost_usd_micros : ℕ
  pub steps_completed : ℕ
  pub config : BudgetConfig F

-- `is_some`
abbrev is_set : {A : Type 0} → Option A → Bool
is_set none = false
is_set (some limit) = true

module _ {F : Type 0} where
  abbrev pub new_limits : BudgetConfig F
  new_limits = record {
    max_tokens = none;
    max_cost_usd = none;
    max_duration = none;
    max_steps = none;
  }

  abbrev pub with_max_tokens : BudgetConfig F → ℕ → BudgetConfig F
  with_max_tokens config limit = record config { max_tokens = some limit }

  abbrev pub with_max_cost_usd : BudgetConfig F → F → BudgetConfig F
  with_max_cost_usd config limit = record config { max_cost_usd = some limit }

  abbrev pub with_max_duration : BudgetConfig F → ℕ → BudgetConfig F
  with_max_duration config limit = record config { max_duration = some limit }

  abbrev pub with_max_steps : BudgetConfig F → ℕ → BudgetConfig F
  with_max_steps config limit = record config { max_steps = some limit }

  unfoldable pub has_limits : BudgetConfig F → Bool
  has_limits config =
      is_set config.max_tokens
      || is_set config.max_cost_usd
      || is_set config.max_duration
      || is_set config.max_steps

  abbrev pub new_tracker : BudgetConfig F → BudgetTracker F
  new_tracker config = record {
    tokens_used = 0;
    cost_usd_micros = 0;
    steps_completed = 0;
    config = config;
  }

  unfoldable pub report_tokens : BudgetTracker F → ℕ → BudgetTracker F
  report_tokens t n = record t { tokens_used = atomic (t.tokens_used + n) }

  unfoldable pub report_step : BudgetTracker F → BudgetTracker F
  report_step t = record t { steps_completed = atomic (t.steps_completed + 1) }

  -- The sum of the two counts is taken in 64 bits as well.
  unfoldable pub report_model_call : BudgetTracker F → ℕ → ℕ → BudgetTracker F
  report_model_call t input_tokens output_tokens = record t {
    tokens_used = atomic (t.tokens_used + atomic (input_tokens + output_tokens));
  }

  module _ (to_micros : F → ℕ) where
    unfoldable pub report_cost : BudgetTracker F → F → BudgetTracker F
    report_cost t cost_usd = record t {
      cost_usd_micros = atomic (t.cost_usd_micros + to_micros cost_usd);
    }

    unfoldable pub report_usage : BudgetTracker F → ℕ → F → BudgetTracker F
    unfolding report_tokens report_cost
    report_usage t n cost_usd = report_cost (report_tokens t n) cost_usd

  module _ (from_micros : ℕ → F) where
    unfoldable pub current_usage : BudgetTracker F → ℕ → BudgetUsage F
    current_usage t elapsed = record {
      tokens_used = t.tokens_used;
      cost_usd = from_micros t.cost_usd_micros;
      duration = elapsed;
      steps_completed = t.steps_completed;
    }

    -- The four tests, in order: a test that finds nothing goes on to the next.
    module _ (exceeds : F → F → Bool) (t : BudgetTracker F) (elapsed : ℕ) where
      unfoldable pub check_steps : Option (BudgetExceededReason F)
      check_steps = elim t.config.max_steps [
        | none ↦ none
        | some limit ↦
            if ltb limit t.steps_completed then some (steps t.steps_completed limit) else none
      ]

      unfoldable pub check_duration : Option (BudgetExceededReason F)
      unfolding check_steps
      check_duration = elim t.config.max_duration [
        | none ↦ check_steps
        | some limit ↦ if ltb limit elapsed then some (duration elapsed limit) else check_steps
      ]

      unfoldable pub check_cost : Option (BudgetExceededReason F)
      unfolding check_duration
      check_cost = elim t.config.max_cost_usd [
        | none ↦ check_duration
        | some limit ↦
            if exceeds (from_micros t.cost_usd_micros) limit
            then some (cost (from_micros t.cost_usd_micros) limit)
            else check_duration
      ]

      unfoldable pub check : Option (BudgetExceededReason F)
      unfolding check_cost
      check = elim t.config.max_tokens [
        | none ↦ check_cost
        | some limit ↦
            if ltb limit t.tokens_used then some (tokens t.tokens_used limit) else check_cost
      ]
