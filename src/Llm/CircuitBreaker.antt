-- ===== src/Llm/CircuitBreaker.antt =====
-- crates/juncture/src/llm/circuit_breaker.rs: the circuit breaker around model calls.
-- Each method is a function from the breaker to the breaker it leaves; the clock's reading, in
-- milliseconds, is an argument `now`. The methods run one at a time, so a `compare_exchange` from
-- the state just loaded succeeds. Counters wrap as the atomics do.
pub mod Invariant
pub mod Transitions
pub mod Probes
use juncture.Prelude.{
  ℕ, zero, suc, ◌+◌, ◌-◌, ◌*◌, ◌%◌, ◌^◌, Bool, true, false, ◌&&◌, not, leb, ltb, ◌==◌,
  if◌then◌else◌,
}

abbrev pub u32 : ℕ → ℕ
u32 n = n % 2 ^ 32

abbrev pub u64 : ℕ → ℕ
u64 n = n % 2 ^ 64

pub data CircuitState : Type 0 where
  closed opened half_open : CircuitState

abbrev pub state_closed : ℕ
state_closed = 0

abbrev pub state_open : ℕ
state_open = 1

abbrev pub state_half_open : ℕ
state_half_open = 2

-- Any other byte reads as `Closed`.
unfoldable pub from_u8 : ℕ → CircuitState
from_u8 value =
    if value == state_closed
    then closed
    else if value == state_open
    then opened
    else if value == state_half_open
    then half_open
    else closed

unfoldable pub as_u8 : CircuitState → ℕ
as_u8 closed = state_closed
as_u8 opened = state_open
as_u8 half_open = state_half_open

-- `recovery_timeout` is the duration in milliseconds, before the cast to 64 bits.
pub record CircuitBreakerConfig : Type 0 where
  pub failure_threshold : ℕ
  pub recovery_timeout : ℕ
  pub half_open_max_calls : ℕ

abbrev pub default_config : CircuitBreakerConfig
default_config = record {
  failure_threshold = 5;
  recovery_timeout = 30 * 1000;
  half_open_max_calls = 1;
}

pub record CircuitBreaker : Type 0 where
  pub config : CircuitBreakerConfig
  pub open config use *
  pub state : ℕ
  pub failure_count : ℕ
  pub success_count : ℕ
  pub last_failure_time : ℕ
  pub half_open_calls : ℕ

unfoldable pub new : CircuitBreakerConfig → CircuitBreaker
new config = record {
  config = config;
  state = state_closed;
  failure_count = 0;
  success_count = 0;
  last_failure_time = 0;
  half_open_calls = 0;
}

-- `now.saturating_sub(last_failure) >= recovery_ms`, after a failure at a time other than 0
unfoldable pub recovered : CircuitBreaker → ℕ → Bool
recovered b now =
    ltb 0 b.last_failure_time && leb (u64 b.recovery_timeout) (now - b.last_failure_time)

-- `CircuitBreaker::state`, which moves an open circuit to half-open once it has recovered.
unfoldable pub read_state : CircuitBreaker → ℕ → CircuitBreaker × CircuitState
unfolding from_u8 recovered
read_state b now =
    if b.state == state_open && recovered b now
    then (record b { state = state_half_open; half_open_calls = 0 }, half_open)
    else (b, from_u8 b.state)

unfoldable pub reset : CircuitBreaker → CircuitBreaker
reset b = record b {
  state = state_closed;
  failure_count = 0;
  success_count = 0;
  last_failure_time = 0;
  half_open_calls = 0;
}

unfoldable pub handle_success : CircuitBreaker → CircuitBreaker
handle_success b =
    let c = record b { failure_count = 0 } in
    if c.state == state_half_open
    then (let successes = u32 (c.success_count + 1) in
        if leb c.half_open_max_calls successes
        then record c { state = state_closed; success_count = 0; half_open_calls = 0 }
        else record c { success_count = successes })
    else c

unfoldable pub handle_failure : CircuitBreaker → ℕ → CircuitBreaker
handle_failure b now =
    let failures = u32 (b.failure_count + 1) in
    let c = record b { last_failure_time = now; failure_count = failures } in
    if leb c.failure_threshold failures
    then (if c.state == state_open then c else record c { state = state_open; success_count = 0 })
    else if c.state == state_half_open
    then record c { state = state_open; success_count = 0; half_open_calls = 0 }
    else c

pub data Admission : Type 0 where
  admitted rejected : Admission

-- `admit` is the match of `pre_invoke` on the state that it read.
unfoldable pub admit : CircuitBreaker → CircuitState → CircuitBreaker × Admission
admit b closed = (b, admitted)
admit b opened = (b, rejected)
admit b half_open =
    let calls = b.half_open_calls in
    let c = record b { half_open_calls = u32 (calls + 1) } in
    if leb c.half_open_max_calls calls
    then (record c { half_open_calls = u32 (c.half_open_calls + 2 ^ 32 - 1) }, rejected)
    else (c, admitted)

unfoldable pub pre_invoke : CircuitBreaker → ℕ → CircuitBreaker × Admission
unfolding admit read_state
pre_invoke b now = let (c, s) = read_state b now in admit c s

pub data Outcome : Type 0 where
  success failure : Outcome

unfoldable pub post_invoke : CircuitBreaker → Outcome → ℕ → CircuitBreaker
unfolding handle_success handle_failure
post_invoke b success now = handle_success b
post_invoke b failure now = handle_failure b now

-- What the program can do to a breaker, and when.
pub data Event : Type 0 where
  call : ℕ → Event
  finish : Outcome → ℕ → Event
  reset_event : Event

unfoldable pub step : CircuitBreaker → Event → CircuitBreaker
unfolding pre_invoke post_invoke reset
step b (call now) = (pre_invoke b now).0
step b (finish o now) = post_invoke b o now
step b reset_event = reset b
