-- ===== src/Graph/Breaker.antt =====
-- crates/juncture-core/src/graph/builder.rs: the circuit breaker of a node. `now` is the clock's
-- reading, and a counter wraps at 64 bits.
pub mod Invariant
use juncture.Prelude.{
  ℕ, ◌+◌, ◌-◌, ◌%◌, ◌^◌, Bool, true, false, Option, none, some, ltb, leb, if◌then◌else◌,
}

abbrev pub usize : ℕ → ℕ
usize n = n % 2 ^ 64

pub data CircuitState : Type 0 where
  closed opened half_open : CircuitState

pub record CircuitBreakerConfig : Type 0 where
  pub failure_threshold : ℕ
  pub cooldown_duration : ℕ
  pub half_open_max_attempts : ℕ

abbrev pub new_config : ℕ → ℕ → CircuitBreakerConfig
new_config failure_threshold cooldown_duration = record {
  failure_threshold = failure_threshold;
  cooldown_duration = cooldown_duration;
  half_open_max_attempts = 1;
}

abbrev pub with_half_open_max_attempts : CircuitBreakerConfig → ℕ → CircuitBreakerConfig
with_half_open_max_attempts config max_attempts = record config {
  half_open_max_attempts = if ltb max_attempts 1 then 1 else max_attempts;
}

pub record CircuitBreakerState : Type 0 where
  pub state : CircuitState
  pub consecutive_failures : ℕ
  pub opened_at : Option ℕ
  pub half_open_attempts : ℕ

abbrev pub new_state : CircuitBreakerState
new_state = record {
  state = closed;
  consecutive_failures = 0;
  opened_at = none;
  half_open_attempts = 0;
}

-- `elapsed` saturates at 0 where the clock is behind.
abbrev pub elapsed : ℕ → ℕ → ℕ
elapsed since now = now - since

-- The part of `should_allow` for an open circuit.
unfoldable pub cool : CircuitBreakerState → CircuitBreakerConfig → ℕ → CircuitBreakerState × Bool
cool b config now = elim b.opened_at [
  | some since ↦
      if leb config.cooldown_duration (elapsed since now)
      then (record b { state = half_open; half_open_attempts = 1 }, true)
      else (b, false)
  | none ↦ (record b { state = closed }, true)
]

unfoldable pub should_allow :
    CircuitBreakerState → CircuitBreakerConfig → ℕ → CircuitBreakerState × Bool
unfolding cool
should_allow b config now = elim b.state [
  | closed ↦ (b, true)
  | opened ↦ cool b config now
  | half_open ↦ (b, ltb b.half_open_attempts config.half_open_max_attempts)
]

unfoldable pub mark_half_open_attempt : CircuitBreakerState → CircuitBreakerState
mark_half_open_attempt b = elim b.state [
  | half_open ↦ record b { half_open_attempts = usize (b.half_open_attempts + 1) }
  | _ ↦ b
]

unfoldable pub record_success : CircuitBreakerState → CircuitBreakerState
record_success b = elim b.state [
  | opened ↦ b
  | _ ↦ record {
    state = closed;
    consecutive_failures = 0;
    opened_at = none;
    half_open_attempts = 0;
  }
]

unfoldable pub record_failure : CircuitBreakerState → CircuitBreakerConfig → ℕ → CircuitBreakerState
record_failure b config now =
    let failures = usize (b.consecutive_failures + 1) in
    elim b.state [
      | closed ↦
          if leb config.failure_threshold failures
          then record b { state = opened; consecutive_failures = failures; opened_at = some now }
          else record b { consecutive_failures = failures }
      | half_open ↦ record {
        state = opened;
        consecutive_failures = failures;
        opened_at = some now;
        half_open_attempts = 0;
      }
      | opened ↦ record b { consecutive_failures = failures }
    ]
