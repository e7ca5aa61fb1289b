-- ===== src/Llm/CircuitBreaker/Invariant.antt =====
-- What holds of a breaker between any two calls of its methods.
use juncture.Prelude.{◌^◌, ◌≤◌, ◌<◌, ◌≡◌, refl, ◌≢◌, List, [], ◌∷◌, arith}
use juncture.Llm.CircuitBreaker.{
  CircuitBreakerConfig, CircuitBreaker, state_closed, state_half_open, new, Event, call, finish,
  reset_event, success, failure, step,
}

-- The thresholds are positive and fit 32 bits.
pub record IsUsable (c : CircuitBreakerConfig) : Type 0 where
  pub failures : 0 < c.failure_threshold
  pub calls : 0 < c.half_open_max_calls
  pub failures_fit : c.failure_threshold < 2 ^ 32
  pub calls_fit : c.half_open_max_calls < 2 ^ 32

pub record IsValid (b : CircuitBreaker) : Type 0 where
  pub known : b.state ≤ 2
  pub below_threshold : b.state ≡ state_closed → b.failure_count < b.failure_threshold
  pub no_successes : b.state ≢ state_half_open → b.success_count ≡ 0
  pub few_successes : b.success_count < b.half_open_max_calls
  pub few_calls : b.state ≡ state_half_open → b.half_open_calls ≤ b.half_open_max_calls

pub new-IsValid : (c : CircuitBreakerConfig) → IsUsable c → IsValid (new c)
unfolding new
new-IsValid c u = ground arith

pub config-step : (b : CircuitBreaker) (e : Event) → (step b e).config ≡ b.config
unfolding step
config-step b (call now) = ground arith
config-step b (finish success now) = ground arith
config-step b (finish failure now) = ground arith
config-step b reset_event = refl

pub step-IsValid :
    (b : CircuitBreaker) (e : Event) → IsUsable b.config → IsValid b → IsValid (step b e)
unfolding step
step-IsValid b (call now) u v = ground arith
step-IsValid b (finish success now) u v = ground arith
step-IsValid b (finish failure now) u v = ground arith
step-IsValid b reset_event u v = ground arith

unfoldable pub run : CircuitBreaker → List Event → CircuitBreaker
run b [] = b
run b (e ∷ es) = run (step b e) es

run_from-IsValid :
    (b : CircuitBreaker) (es : List Event) → IsUsable b.config → IsValid b → IsValid (run b es)
unfolding run
run_from-IsValid b [] u v = v
run_from-IsValid b (e ∷ es) u v =
    run_from-IsValid (step b e) es (rw (config-step b e) u) (step-IsValid b e u v)

-- A new breaker with usable thresholds is valid after any calls, outcomes and resets.
pub run-IsValid :
    (c : CircuitBreakerConfig) (es : List Event) → IsUsable c → IsValid (run (new c) es)
unfolding new
run-IsValid c es u = run_from-IsValid (new c) es u (new-IsValid c u)
