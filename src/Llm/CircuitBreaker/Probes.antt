-- ===== src/Llm/CircuitBreaker/Probes.antt =====
-- How many calls a half-open breaker lets through.
use juncture.Prelude.{
  ℕ, ◌+◌, ◌-◌, ◌^◌, ◌≤◌, ◌<◌, min, ◌≡◌, refl, ◌⊎◌, inl, inr, List, [], ◌∷◌, arith, length,
}
use juncture.Llm.CircuitBreaker.{
  CircuitBreaker, state_half_open, Admission, pre_invoke, admitted, rejected,
}

abbrev count : Admission → ℕ → ℕ
count admitted n = n + 1
count rejected n = n

-- One call after another, at the given times: how many were let through.
unfoldable pub call_all : CircuitBreaker → List ℕ → CircuitBreaker × ℕ
call_all b [] = (b, 0)
call_all b (now ∷ times) =
    let (c, a) = pre_invoke b now in let (d, n) = call_all c times in (d, count a n)

pre_invoke-half_open :
    (b : CircuitBreaker) (now : ℕ)
    → b.state ≡ state_half_open
    → b.half_open_calls < b.half_open_max_calls
    → b.half_open_max_calls < 2 ^ 32
    → pre_invoke b now ≡ (record b { half_open_calls = b.half_open_calls + 1 }, admitted)
unfolding pre_invoke
pre_invoke-half_open b now h l f = ground arith

pre_invoke-used_up :
    (b : CircuitBreaker) (now : ℕ)
    → b.state ≡ state_half_open
    → b.half_open_calls ≡ b.half_open_max_calls
    → b.half_open_max_calls < 2 ^ 32
    → pre_invoke b now ≡ (b, rejected)
unfolding pre_invoke
pre_invoke-used_up b now h l f = ground arith

-- A half-open breaker whose probes are all out stays as it is and rejects every call, at any time.
pub call_all-used_up :
    (b : CircuitBreaker) (times : List ℕ)
    → b.state ≡ state_half_open
    → b.half_open_calls ≡ b.half_open_max_calls
    → b.half_open_max_calls < 2 ^ 32
    → call_all b times ≡ (b, 0)
unfolding call_all
call_all-used_up b [] h l f = refl
call_all-used_up b (now ∷ times) h l f =
    rw (pre_invoke-used_up b now h l f) (rw (call_all-used_up b times h l f))

room :
    (b : CircuitBreaker)
    → b.half_open_calls ≤ b.half_open_max_calls
    → (b.half_open_calls ≡ b.half_open_max_calls) ⊎ (b.half_open_calls < b.half_open_max_calls)
room b h = ground arith

-- Of any calls made one after another while no outcome comes back, a half-open breaker admits as
-- many as its limit leaves room for, whatever the times.
pub call_all-half_open :
    (b : CircuitBreaker) (times : List ℕ)
    → b.state ≡ state_half_open
    → b.half_open_calls ≤ b.half_open_max_calls
    → b.half_open_max_calls < 2 ^ 32
    → (call_all b times).1 ≡ min (length times) (b.half_open_max_calls - b.half_open_calls)
unfolding call_all
call_all-half_open b [] h l f = omega arith
call_all-half_open b (now ∷ times) h l f = elim (room b l) [
  | inl e ↦ rw (pre_invoke-used_up b now h e f) (rw (call_all-used_up b times h e f) (omega arith))
  | inr lt ↦ rw (pre_invoke-half_open b now h lt f) (
      omega (
        arith,
        call_all-half_open (record b { half_open_calls = b.half_open_calls + 1 }) times h
            (omega arith) f,
      ))
]
