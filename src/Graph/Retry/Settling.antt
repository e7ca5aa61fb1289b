-- ===== src/Graph/Retry/Settling.antt =====
-- crates/juncture-core/src/graph/builder.rs: how often `execute_with_retry` calls the operation, and
-- what it answers.
use juncture.Prelude.{
  ℕ, zero, suc, ◌+◌, ◌≤◌, ◌<◌, String, ◌≡◌, refl, sym, ap, ◌∙◌, ◌⊎◌, inl, inr, Bool, true, false,
  not, ◌||◌, Option, none, some, [], arith, leb, length, all,
}
use juncture.Prelude.Result.{Result, ok, err}
use juncture.Graph.Retry.{
  RetryEnv, RetryPolicy, Retried, cap_delay, slept, should_retry, compute_delay, attempt_from,
  execute_with_retry,
}

eq_or_lt : (a j : ℕ) → a ≤ j → (j ≡ a) ⊎ (a + 1 ≤ j)
eq_or_lt a j h = grind arith

module _ {E F : Type 0} (env : RetryEnv E F) where
  compute_delay-le :
      (base max_interval : ℕ) (jitter : Bool) (fraction : F)
      → compute_delay env base jitter max_interval fraction ≤ max_interval
  unfolding compute_delay cap_delay
  compute_delay-le base max_interval true fraction = omega arith
  compute_delay-le base max_interval false fraction = omega arith

  -- From the attempt `first` on, the operation is called up to the attempt `last`, and its answer
  -- there is returned.
  abbrev pub Settles :
      {A : Type 0} → RetryPolicy E F → (ℕ → Result E A) → ℕ → Retried E A → ℕ → Type 0
  Settles policy operation first r last =
      (first ≤ last)
      × (last < policy.max_attempts)
      × ((j : ℕ)
          → first ≤ j
          → j < last
          → (e : E) × (operation j ≡ err e) × (should_retry env policy e ≡ true))
      × (r.result ≡ operation last)
      × ((e : E)
          → operation last ≡ err e
          → should_retry env policy e ≡ true
          → last + 1 ≡ policy.max_attempts)
      × (r.calls ≡ last + 1)
      × (length r.sleeps + first ≡ last)
      × (all (λ d. leb d policy.max_interval) r.sleeps ≡ true)

  module _ {A : Type 0} (node_name : String) (policy : RetryPolicy E F)
      (operation : ℕ → Result E A) where
    -- The last error that is retried has no attempt after it.
    stops :
        {attempt : ℕ} (e f : E) {r : Result E A}
        → r ≡ err e
        → r ≡ err f
        → should_retry env policy f ≡ true
        → attempt < policy.max_attempts
        → (not (should_retry env policy e) || leb policy.max_attempts (attempt + 1)) ≡ true
        → attempt + 1 ≡ policy.max_attempts
    stops e f p q t l g = ground arith

    settle_from :
        (n attempt delay : ℕ) (last_error : Option E)
        → attempt < policy.max_attempts
        → ((e : E)
            → attempt + 1 < policy.max_attempts
            → (last : ℕ) × Settles policy operation
                (attempt + 1)
                (attempt_from env node_name policy operation n
                  (attempt + 1)
                  (cap_delay (env.mul_f64 delay policy.backoff_factor) policy.max_interval)
                  (some e))
                last)
        → (last : ℕ) × Settles policy operation attempt
            (attempt_from env node_name policy operation (suc n) attempt delay last_error)
            last
    unfolding attempt_from
    settle_from n attempt delay last_error l next = answered (operation attempt) refl
      where
        later : E → Retried E A
        later e =
            attempt_from env node_name policy operation n (attempt + 1)
              (cap_delay (env.mul_f64 delay policy.backoff_factor) policy.max_interval) (some e)

        sleep : ℕ
        sleep = compute_delay env delay policy.jitter policy.max_interval (env.random attempt)

        erred :
            (e : E)
            → operation attempt ≡ err e
            → (b : Bool)
            → (not (should_retry env policy e) || leb policy.max_attempts (attempt + 1)) ≡ b
            → (last : ℕ) × Settles policy operation attempt
                (elim b [
                  | true ↦ record { calls = attempt + 1; sleeps = []; result = err e }
                  | false ↦ slept sleep (later e)
                ])
                last
        erred e q true g = (
          attempt,
          (
            omega arith,
            l,
            λ j x y. absurd (omega arith),
            sym q,
            λ f r t. stops e f q r t l g,
            refl,
            omega arith,
            refl,
          ),
        )
        erred e q false g =
            let (last, (le, lt, before, result, final, calls, slept_before, capped)) =
              next e (ground arith) in
            (
              last,
              (
                omega arith,
                lt,
                λ j x y. elim (eq_or_lt attempt j x) [
                  | inl same ↦ (e, ap operation same ∙ q, ground arith)
                  | inr past ↦ before j past y
                ],
                result,
                final,
                calls,
                omega (arith, slept_before),
                ground (
                  arith,
                  compute_delay-le delay policy.max_interval policy.jitter (env.random attempt),
                  capped,
                ),
              ),
            )

        answered :
            (r : Result E A)
            → operation attempt ≡ r
            → (last : ℕ) × Settles policy operation attempt
                (elim r [
                  | ok command ↦ record { calls = attempt + 1; sleeps = []; result = ok command }
                  | err e ↦
                      elim (not (should_retry env policy e)
                        || leb policy.max_attempts (attempt + 1)) [
                          | true ↦ record { calls = attempt + 1; sleeps = []; result = err e }
                          | false ↦ slept sleep (later e)
                        ]
                ])
                last
        answered (ok command) q = (
          attempt,
          (
            omega arith,
            l,
            λ j x y. absurd (omega arith),
            sym q,
            λ e r t. absurd (ground arith),
            refl,
            omega arith,
            refl,
          ),
        )
        answered (err e) q = erred e q _ refl

    attempt_from-Settles :
        (n attempt delay : ℕ) (last_error : Option E)
        → suc n + attempt ≡ policy.max_attempts
        → (last : ℕ) × Settles policy operation attempt
            (attempt_from env node_name policy operation (suc n) attempt delay last_error)
            last
    unfolding attempt_from
    attempt_from-Settles zero attempt delay last_error h =
        settle_from zero attempt delay last_error (omega arith) (λ e more. absurd (omega arith))
    attempt_from-Settles (suc n) attempt delay last_error h =
        settle_from (suc n) attempt delay last_error (omega arith) (λ e more.
          attempt_from-Settles n (attempt + 1)
            (cap_delay (env.mul_f64 delay policy.backoff_factor) policy.max_interval) (some e)
            (omega arith))

    -- Under a policy of one attempt or more, the operation is called up to some attempt: the calls
    -- before it failed with errors that are retried, its answer is returned, and it is no error
    -- that is retried unless no attempt is left. Between the calls there is one sleep each, never
    -- above the maximum interval.
    pub execute_with_retry-Settles :
        0 < policy.max_attempts
        → (last : ℕ) × Settles policy operation 0
            (execute_with_retry env node_name policy operation)
            last
    unfolding execute_with_retry
    execute_with_retry-Settles h = start policy.max_attempts refl h
      where
        start :
            (m : ℕ)
            → policy.max_attempts ≡ m
            → 0 < m
            → (last : ℕ) × Settles policy operation 0
                (attempt_from env node_name policy operation m 0 policy.initial_interval none)
                last
        start zero e l = absurd (omega arith)
        start (suc m) e l = attempt_from-Settles m 0 policy.initial_interval none (omega arith)
