-- ===== src/Graph/RetryTests.antt =====
-- An operation that fails twice and then answers, under a policy of three attempts.
use juncture.Prelude.{ℕ, ◌*◌, String, true, false, none, arith, ltb, if◌then◌else◌}
use juncture.Prelude.Result.{Result, ok, err}
use juncture.Graph.Retry.{RetryEnv, RetryPolicy, execute_with_retry}
use juncture.Graph.Retry.Settling.{Settles, execute_with_retry-Settles}

abbrev env : RetryEnv String ℕ
env = record {
  is_cancelled = λ e. false;
  is_interrupt = λ e. false;
  execution = λ message. message;
  mul_f64 = λ d factor. d * factor;
  random = λ n. 1;
}

abbrev policy : RetryPolicy String ℕ
policy = record {
  max_attempts = 3;
  initial_interval = 500;
  backoff_factor = 2;
  max_interval = 800;
  jitter = true;
  retry_on = none;
}

abbrev operation : ℕ → Result String ℕ
operation n = if ltb n 2 then err "busy" else ok n

execute_with_retry-Settles_example :
    (last : ℕ) × Settles env policy operation 0
      (execute_with_retry env "fetch" policy operation)
      last
execute_with_retry-Settles_example =
    execute_with_retry-Settles env "fetch" policy operation (omega arith)
