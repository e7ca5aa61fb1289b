-- ===== src/Llm/CircuitBreaker/Transitions.antt =====
-- When the breaker opens, closes and lets a call through again.
use juncture.Prelude.{
  ℕ, zero, suc, ◌+◌, ◌^◌, ◌<◌, ◌≡◌, ◌⊎◌, inl, inr, List, [], ◌∷◌, arith, ltb, leb, if◌then◌else◌,
  length,
}
use juncture.Llm.CircuitBreaker.{
  CircuitBreakerConfig, CircuitBreaker, state_closed, state_open, state_half_open, new, Event, call,
  finish, reset_event, success, failure, step, handle_failure, handle_success, pre_invoke, admitted,
  rejected,
}
use juncture.Llm.CircuitBreaker.Invariant.{IsUsable, IsValid}

-- The diagram at the top of the file, with the event that causes each edge.
pub data Edge : Event → ℕ → ℕ → Type 0 where
  trip : (now : ℕ) → Edge (finish failure now) state_closed state_open
  recover : (now : ℕ) → Edge (call now) state_open state_half_open
  heal : (now : ℕ) → Edge (finish success now) state_half_open state_closed
  relapse : (now : ℕ) → Edge (finish failure now) state_half_open state_open
  clear : (s : ℕ) → Edge reset_event s state_closed

-- A call, an outcome or a reset at a valid breaker leaves the state as it is or takes one of five
-- edges: a failure opens a closed or half-open circuit, a call half-opens an open one, a success
-- closes a half-open one, and a reset closes any.
pub step-Edge :
    (b : CircuitBreaker) (e : Event)
    → IsValid b
    → ((step b e).state ≡ b.state) ⊎ Edge e b.state (step b e).state
unfolding step
step-Edge b (call now) v = grind (arith, recover)
step-Edge b (finish success now) v = grind (arith, heal)
step-Edge b (finish failure now) v = grind (arith, trip, relapse)
step-Edge b reset_event v = inr (clear b.state)

-- One failure after another, at the given times.
unfoldable pub fail_all : CircuitBreaker → List ℕ → CircuitBreaker
unfolding handle_failure
fail_all b [] = b
fail_all b (now ∷ times) = fail_all (handle_failure b now) times

handle_failure-opened :
    (b : CircuitBreaker) (now : ℕ)
    → b.state ≡ state_open
    → (handle_failure b now).state ≡ state_open
unfolding handle_failure
handle_failure-opened b now h = ground arith

fail_all-opened :
    (b : CircuitBreaker) (times : List ℕ)
    → b.state ≡ state_open
    → (fail_all b times).state ≡ state_open
unfolding fail_all
fail_all-opened b [] h = h
fail_all-opened b (now ∷ times) h =
    fail_all-opened (handle_failure b now) times (handle_failure-opened b now h)

handle_failure-closed :
    (b : CircuitBreaker) (now : ℕ)
    → b.state ≡ state_closed
    → b.failure_count < b.failure_threshold
    → b.failure_threshold < 2 ^ 32
    → ((b.failure_count + 1 ≡ b.failure_threshold) × ((handle_failure b now).state ≡ state_open))
      ⊎ ((b.failure_count + 1 < b.failure_threshold)
          × ((handle_failure b now).state ≡ state_closed)
          × ((handle_failure b now).failure_count ≡ b.failure_count + 1)
          × ((handle_failure b now).failure_threshold ≡ b.failure_threshold))
unfolding handle_failure
handle_failure-closed b now h k f = ground arith

fail_all-closed :
    (b : CircuitBreaker) (times : List ℕ)
    → b.state ≡ state_closed
    → b.failure_count < b.failure_threshold
    → b.failure_threshold < 2 ^ 32
    → (fail_all b times).state ≡ (
        if ltb (b.failure_count + length times) b.failure_threshold
        then state_closed
        else state_open)
unfolding fail_all
fail_all-closed b [] h k f = ground arith
fail_all-closed b (now ∷ times) h k f = elim (handle_failure-closed b now h k f) [
  | inl (e, o) ↦ ground (arith, fail_all-opened (handle_failure b now) times o)
  | inr (lt, c, n, t) ↦ ground (arith, fail_all-closed (handle_failure b now) times c)
]

-- A new breaker stays closed for fewer failures in a row than the threshold, and is open from
-- then on.
pub new-fail_all :
    (c : CircuitBreakerConfig) (times : List ℕ)
    → IsUsable c
    → (fail_all (new c) times).state
      ≡ (if ltb (length times) c.failure_threshold then state_closed else state_open)
unfolding new
new-fail_all c times u = ground (arith, fail_all-closed (new c) times)

failed_probe :
    (b : CircuitBreaker) (t : ℕ)
    → b.state ≡ state_half_open
    → ((handle_failure b t).state ≡ state_open)
      × ((handle_failure b t).last_failure_time ≡ t)
      × ((handle_failure b t).config ≡ b.config)
unfolding handle_failure
failed_probe b t h = ground arith

pre_invoke-opened :
    (b : CircuitBreaker) (now : ℕ)
    → b.state ≡ state_open
    → 0 < b.half_open_max_calls
    → 0 < b.last_failure_time
    → 0 < b.recovery_timeout
    → b.recovery_timeout < 2 ^ 64
    → (pre_invoke b now).1
      ≡ (if leb (b.last_failure_time + b.recovery_timeout) now then admitted else rejected)
unfolding pre_invoke
pre_invoke-opened b now h m p q r = ground arith

-- After a failure at time `t` in a half-open breaker that allows a probe at all, where `t` is not 0
-- and the recovery timeout is positive and fits 64 bits, a call is rejected before `t + recovery_timeout`, and
-- admitted from then on.
pub relapse_blocks :
    (b : CircuitBreaker) (t now : ℕ)
    → b.state ≡ state_half_open
    → 0 < b.half_open_max_calls
    → 0 < t
    → 0 < b.recovery_timeout
    → b.recovery_timeout < 2 ^ 64
    → (pre_invoke (handle_failure b t) now).1
      ≡ (if leb (t + b.recovery_timeout) now then admitted else rejected)
relapse_blocks b t now h m p q r =
    let (s, l, c) = failed_probe b t h in
    ground (arith, pre_invoke-opened (handle_failure b t) now s)

-- One success after another.
unfoldable pub succeed : ℕ → CircuitBreaker → CircuitBreaker
succeed zero b = b
succeed (suc k) b = succeed k (handle_success b)

handle_success-half_open :
    (b : CircuitBreaker)
    → b.state ≡ state_half_open
    → b.success_count < b.half_open_max_calls
    → b.half_open_max_calls < 2 ^ 32
    → ((b.success_count + 1 ≡ b.half_open_max_calls) × ((handle_success b).state ≡ state_closed))
      ⊎ ((b.success_count + 1 < b.half_open_max_calls)
          × ((handle_success b).state ≡ state_half_open)
          × ((handle_success b).success_count ≡ b.success_count + 1)
          × ((handle_success b).half_open_max_calls ≡ b.half_open_max_calls))
unfolding handle_success
handle_success-half_open b h k f = ground arith

handle_success-closed :
    (b : CircuitBreaker) → b.state ≡ state_closed → (handle_success b).state ≡ state_closed
unfolding handle_success
handle_success-closed b h = ground arith

succeed-closed :
    (k : ℕ) (b : CircuitBreaker) → b.state ≡ state_closed → (succeed k b).state ≡ state_closed
unfolding succeed
succeed-closed zero b h = h
succeed-closed (suc k) b h = succeed-closed k (handle_success b) (handle_success-closed b h)

-- The half-open breaker closes with the success that brings the count to `half_open_max_calls`.
pub succeed-half_open :
    (k : ℕ) (b : CircuitBreaker)
    → b.state ≡ state_half_open
    → b.success_count < b.half_open_max_calls
    → b.half_open_max_calls < 2 ^ 32
    → (succeed k b).state
      ≡ (if ltb (b.success_count + k) b.half_open_max_calls then state_half_open else state_closed)
unfolding succeed
succeed-half_open zero b h s f = ground arith
succeed-half_open (suc k) b h s f = elim (handle_success-half_open b h s f) [
  | inl (e, c) ↦ ground (arith, succeed-closed k (handle_success b) c)
  | inr (lt, c, n, t) ↦ ground (arith, succeed-half_open k (handle_success b) c)
]
