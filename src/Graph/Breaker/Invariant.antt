-- ===== src/Graph/Breaker/Invariant.antt =====
-- Which states a node's circuit breaker can be in.
use juncture.Prelude.{
  ℕ, ◌+◌, ◌≤◌, ◌<◌, ◌≡◌, refl, inl, inr, Option, none, some, List, [], ◌∷◌, arith, leb, Bool-cases,
}
use juncture.Graph.Breaker.{
  CircuitState, closed, opened, half_open, CircuitBreakerConfig, CircuitBreakerState, new_state,
  usize, elapsed, should_allow, mark_half_open_attempt, record_success, record_failure,
}

-- What the engine does with a breaker: it asks before a task runs, and reports the outcome after.
pub data Action : Type 0 where
  ask : ℕ → Action
  succeeded : Action
  failure_at : ℕ → Action

abbrev pub act : CircuitBreakerConfig → CircuitBreakerState → Action → CircuitBreakerState
act config b (ask now) = (should_allow b config now).0
act config b succeeded = record_success (mark_half_open_attempt b)
act config b (failure_at now) = record_failure (mark_half_open_attempt b) config now

unfoldable pub acts : CircuitBreakerConfig → CircuitBreakerState → List Action → CircuitBreakerState
acts config b [] = b
acts config b (a ∷ rest) = acts config (act config b a) rest

-- An open circuit knows since when, a closed one has fewer failures than the threshold, and only a
-- half-open one has attempts.
abbrev pub IsValidIn : CircuitBreakerConfig → CircuitBreakerState → CircuitState → Type 0
IsValidIn config b closed =
    (b.consecutive_failures < config.failure_threshold) × (b.half_open_attempts ≡ 0)
IsValidIn config b opened = ((since : ℕ) × (b.opened_at ≡ some since)) × (b.half_open_attempts ≡ 0)
IsValidIn config b half_open = (since : ℕ) × (b.opened_at ≡ some since)

abbrev pub IsValid : CircuitBreakerConfig → CircuitBreakerState → Type 0
IsValid config b = IsValidIn config b b.state

-- A breaker by its fields.
abbrev breaker : CircuitState → ℕ → Option ℕ → ℕ → CircuitBreakerState
breaker state failures opened_at attempts = record {
  state = state;
  consecutive_failures = failures;
  opened_at = opened_at;
  half_open_attempts = attempts;
}

ask-IsValid :
    (config : CircuitBreakerConfig) (s : CircuitState) (n : ℕ) (o : Option ℕ) (k now : ℕ)
    → IsValid config (breaker s n o k)
    → IsValid config (should_allow (breaker s n o k) config now).0
unfolding should_allow
ask-IsValid config closed n o k now v = v
ask-IsValid config half_open n o k now v = v
ask-IsValid config opened n none k now v = absurd (ground arith)
ask-IsValid config opened n (some since) k now v =
    elim (Bool-cases (leb config.cooldown_duration (elapsed since now))) [
      | inl e ↦ rw e (since, refl)
      | inr e ↦ rw e v
    ]

success-IsValid :
    (config : CircuitBreakerConfig) (s : CircuitState) (n : ℕ) (o : Option ℕ) (k : ℕ)
    → 1 ≤ config.failure_threshold
    → IsValid config (breaker s n o k)
    → IsValid config (record_success (mark_half_open_attempt (breaker s n o k)))
unfolding record_success mark_half_open_attempt
success-IsValid config closed n o k h v = (h, refl)
success-IsValid config half_open n o k h v = (h, refl)
success-IsValid config opened n o k h v = v

failure-IsValid :
    (config : CircuitBreakerConfig) (s : CircuitState) (n : ℕ) (o : Option ℕ) (k now : ℕ)
    → IsValid config (breaker s n o k)
    → IsValid config (record_failure (mark_half_open_attempt (breaker s n o k)) config now)
unfolding record_failure mark_half_open_attempt
failure-IsValid config closed n o k now v =
    elim (Bool-cases (leb config.failure_threshold (usize (n + 1)))) [
      | inl e ↦ rw e ((now, refl), v.1)
      | inr e ↦ rw e (ground arith, v.1)
    ]
failure-IsValid config half_open n o k now v = ((now, refl), refl)
failure-IsValid config opened n o k now v = v

act-IsValid :
    (config : CircuitBreakerConfig) (b : CircuitBreakerState) (a : Action)
    → 1 ≤ config.failure_threshold
    → IsValid config b
    → IsValid config (act config b a)
act-IsValid config b (ask now) h v =
    ask-IsValid config b.state b.consecutive_failures b.opened_at b.half_open_attempts now v
act-IsValid config b succeeded h v =
    success-IsValid config b.state b.consecutive_failures b.opened_at b.half_open_attempts h v
act-IsValid config b (failure_at now) h v =
    failure-IsValid config b.state b.consecutive_failures b.opened_at b.half_open_attempts now v

-- From a new breaker on, whatever is asked and reported: an open circuit knows since when it is open,
-- a closed one counts fewer failures than the threshold, which is not 0, and only a
-- half-open one has used attempts.
pub acts-IsValid :
    (config : CircuitBreakerConfig) (actions : List Action)
    → 1 ≤ config.failure_threshold
    → IsValid config (acts config new_state actions)
unfolding acts
acts-IsValid config actions h = go new_state actions (h, refl)
  where
    go :
        (b : CircuitBreakerState) (actions : List Action)
        → IsValid config b
        → IsValid config (acts config b actions)
    go b [] v = v
    go b (a ∷ rest) v = go (act config b a) rest (act-IsValid config b a h v)
