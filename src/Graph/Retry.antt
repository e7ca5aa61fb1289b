-- ===== src/Graph/Retry.antt =====
-- crates/juncture-core/src/graph/builder.rs: `execute_with_retry`. A duration is a number of
-- nanoseconds, `F` the type of factors with `mul_f64`, and `E` the type of errors with its two
-- tests. `operation n` is what the attempt `n` answers, and `random n` the factor drawn after it.
-- The sleeps are listed, in order.
pub mod Settling
use juncture.Prelude.{
  ℕ, zero, suc, ◌+◌, min, String, Bool, true, false, not, ◌||◌, Option, none, some, List, [], ◌∷◌,
  leb, if◌then◌else◌,
}
use Prim.Native.String.{◌++◌ as concat}
use juncture.Prelude.Result.{Result, ok, err}

pub record RetryPolicy (E F : Type 0) : Type 0 where
  pub max_attempts : ℕ
  pub initial_interval : ℕ
  pub backoff_factor : F
  pub max_interval : ℕ
  pub jitter : Bool
  pub retry_on : Option (E → Bool)

-- The calls that were made, the sleeps between them, and the answer.
pub record Retried (E A : Type 0) : Type 0 where
  pub calls : ℕ
  pub sleeps : List ℕ
  pub result : Result E A

unfoldable pub cap_delay : ℕ → ℕ → ℕ
cap_delay delay max_interval = min delay max_interval

abbrev pub slept : {E A : Type 0} → ℕ → Retried E A → Retried E A
slept delay r = record r { sleeps = delay ∷ r.sleeps }

-- What the retries call: the tests of an error and its construction, and the factors.
pub record RetryEnv (E F : Type 0) : Type 0 where
  pub is_cancelled : E → Bool
  pub is_interrupt : E → Bool
  pub execution : String → E
  pub mul_f64 : ℕ → F → ℕ
  pub random : ℕ → F

module _ {E F : Type 0} (env : RetryEnv E F) where
  unfoldable pub should_retry : RetryPolicy E F → E → Bool
  should_retry policy error = elim policy.retry_on [
    | none ↦ not (env.is_cancelled error || env.is_interrupt error)
    | some predicate ↦ predicate error
  ]

  unfoldable pub compute_delay : ℕ → Bool → ℕ → F → ℕ
  compute_delay base jitter max_interval fraction =
      let capped = cap_delay base max_interval in
      if jitter then cap_delay (env.mul_f64 capped fraction) max_interval else capped

  -- `n` attempts are left.
  unfoldable pub attempt_from :
      {A : Type 0}
      → String
      → RetryPolicy E F
      → (ℕ → Result E A)
      → ℕ
      → ℕ
      → ℕ
      → Option E
      → Retried E A
  attempt_from node_name policy operation zero attempt delay last_error = record {
    calls = attempt;
    sleeps = [];
    result = err (elim last_error [
      | none ↦
          env.execution
            (concat "node '" (concat node_name "': retry policy exhausted with no error recorded"))
      | some error ↦ error
    ]);
  }
  attempt_from node_name policy operation (suc n) attempt delay last_error =
      elim (operation attempt) [
        | ok command ↦ record { calls = attempt + 1; sleeps = []; result = ok command }
        | err error ↦
            elim (not (should_retry policy error) || leb policy.max_attempts (attempt + 1)) [
              | true ↦ record { calls = attempt + 1; sleeps = []; result = err error }
              | false ↦
                  slept (compute_delay delay policy.jitter policy.max_interval (env.random attempt))
                    (attempt_from node_name policy operation n (attempt + 1)
                      (cap_delay (env.mul_f64 delay policy.backoff_factor) policy.max_interval)
                      (some error))
            ]
      ]

  unfoldable pub execute_with_retry :
      {A : Type 0} → String → RetryPolicy E F → (ℕ → Result E A) → Retried E A
  execute_with_retry node_name policy operation =
      attempt_from node_name policy operation policy.max_attempts 0 policy.initial_interval none
