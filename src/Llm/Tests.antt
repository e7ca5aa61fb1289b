-- ===== src/Llm/Tests.antt =====
-- The circuit breaker at concrete inputs.
use juncture.Prelude.{◌≡◌, refl, ◌⊎◌, [], ◌∷◌, arith}
use juncture.Llm.CircuitBreaker.{
  CircuitBreaker, default_config, state_half_open, new, call, finish, failure, step,
}
use juncture.Llm.CircuitBreaker.Invariant.{IsUsable, IsValid, run, run-IsValid}
use juncture.Llm.CircuitBreaker.Transitions.{Edge, step-Edge}
use juncture.Llm.CircuitBreaker.Probes.{call_all, call_all-used_up}

default-IsUsable : IsUsable default_config
default-IsUsable = record {
  failures = omega arith;
  calls = omega arith;
  failures_fit = omega arith;
  calls_fit = omega arith;
}

abbrev half : CircuitBreaker
half = record {
  config = record { failure_threshold = 5; recovery_timeout = 30000; half_open_max_calls = 2 };
  state = state_half_open;
  failure_count = 5;
  success_count = 0;
  last_failure_time = 1000;
  half_open_calls = 0;
}

abbrev used_up : CircuitBreaker
used_up = record half { half_open_calls = 2 }

half-IsValid : IsValid half
half-IsValid = ground arith

run-IsValid_example : IsValid (run (new default_config) (finish failure 7 ∷ call 8 ∷ []))
run-IsValid_example = run-IsValid default_config (finish failure 7 ∷ call 8 ∷ []) default-IsUsable

step-Edge_example :
    ((step half (finish failure 9)).state ≡ half.state)
    ⊎ Edge (finish failure 9) half.state (step half (finish failure 9)).state
step-Edge_example = step-Edge half (finish failure 9) half-IsValid

call_all-used_up_example : call_all used_up (1 ∷ 99999 ∷ []) ≡ (used_up, 0)
call_all-used_up_example = call_all-used_up used_up (1 ∷ 99999 ∷ []) refl refl (omega arith)
