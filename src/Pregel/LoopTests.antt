-- ===== src/Pregel/LoopTests.antt =====
-- The superstep loop at concrete inputs: a node `a` with an edge to itself, whose runs add 1 to a
-- state of one field.
use juncture.Prelude.{
  ℕ, ◌+◌, String, ◌≡◌, refl, sym, ap, false, none, some, List, [], ◌∷◌, arith, ltb, ◌==◌,
  if◌then◌else◌,
}
use juncture.Prelude.Result.{Result, ok, err}
use juncture.State.Fields.{State, no_fields}
use juncture.Pregel.Types.{
  JunctureError, running, interrupt_after, TaskOutput, stay, pull, pull_task, fixed, edge,
  TriggerTable,
}
use juncture.Pregel.Schedule.{from_trigger_table}
use juncture.Pregel.Interrupts.{InterruptSignal, new_scratchpad}
use juncture.Pregel.Loop.{Env, PregelLoop, RunnableConfig, sync}
use juncture.Pregel.Loop.Tick.{tick}
use juncture.Pregel.Loop.Superstep.{SuperstepResult, BubbleUp, Runner}
use juncture.Pregel.Writes.{
  apply_writes, check_replace_conflicts_from_state, check_fields, sort_outputs, insert_sorted,
  apply_sorted,
}
use juncture.State.Fields.{merge, is_empty_mask}
use juncture.Pregel.Loop.Merging.{Ids, size_error, check_state_size_limit}
use juncture.Pregel.Loop.AfterTick.{after_tick}
use juncture.Pregel.Loop.Run.{Round, drive}
use juncture.Pregel.Loop.Ticking.{Decided, tick-Decided}
use juncture.Pregel.Loop.Ignored.{tick-status}
use juncture.Pregel.Loop.Keeping.{After}
use juncture.Pregel.Loop.Progress.{after_tick-After}
use juncture.Pregel.Loop.Quiet.{Quiet}
use juncture.Pregel.Loop.Bounded.{Ends, drive-Ends}
use juncture.Pregel.Loop.Rollback.{after_tick-rolled_back}

abbrev ops : State ℕ ℕ
ops = record {
  try_apply = λ s u. (s + u, ok (record { mask = 1 }));
  field_is_set = λ u i. i == 0;
  replace_field_indices = [];
  finish_field = λ s i. s;
  replace_after_finish_field_indices = [];
  consume_field = λ s i. s;
  field_count = 1;
  reset_ephemeral = λ s. s;
}

abbrev env : Env ℕ ℕ String ℕ ℕ
env = record {
  ops = ops;
  field_names_len = 1;
  delta_channel_specs = [];
  to_vec_len = λ s. ok s;
  to_value = λ s. ok "state";
  from_value = λ j. ok 0;
  show = λ n. if n == 0 then "0" else "many";
  show_reason = λ r. "exceeded";
  from_micros = λ n. n;
  is_above = λ a b. ltb b a;
  interrupt_id = λ node i. node;
  payload = λ node reason. node;
  payload_node = λ j. some j;
  as_str = λ j. some j;
  put = λ w id c m. (w + 1, ok (some c.id));
  get_tuple = λ w id. none;
}

abbrev config : RunnableConfig
config = record {
  recursion_limit = 2;
  interrupt_before = none;
  interrupt_after = none;
  resource_limits = some (record { max_state_size_bytes = some 5 });
  durability = some sync;
  checkpoint_id = none;
}

abbrev table : TriggerTable ℕ
table = record {
  outgoing = ("a", fixed "a" ∷ []) ∷ [];
  incoming = ("a", edge "__start__" ∷ edge "a" ∷ []) ∷ [];
}

abbrev looping : ℕ → PregelLoop ℕ ℕ String ℕ ℕ
looping state = record {
  state = state;
  nodes = "a" ∷ [];
  node_registration = ("a", 0) ∷ [];
  trigger_table = table;
  field_versions = record { versions = 0 ∷ []; global_max = 0 };
  versions_seen = ("a", 0 ∷ []) ∷ [];
  runnable_config = config;
  is_cancelled = false;
  checkpointer = some 0;
  step = 0;
  status = running;
  pending_tasks = pull_task "id" "a" ∷ [];
  previous_superstep_changed_fields = no_fields;
  budget_tracker = none;
  drain_requested = false;
  run_id = "run";
  interrupt_rx = none;
  pending_interrupts = [];
  scratchpad = new_scratchpad;
  interrupt_versions_seen = [];
  error_handler_map = [];
  trigger_to_nodes = from_trigger_table table;
  circuit_breaker_configs = [];
  circuit_breaker_states = [];
  fallback_map = [];
  delta_counters = [];
  channels_finished = false;
}

abbrev ids : Ids
ids = record {
  next_id = λ k. "next";
  fallback_id = λ k. "fallback";
  handler_id = λ k. "handler";
  persisted_id = λ k. "persisted";
  superstep_checkpoint = "superstep";
  interrupt_checkpoint = "interrupt";
  exit_checkpoint = "exit";
}

abbrev output : TaskOutput ℕ String
output = record {
  task_id = "id";
  node_name = "a";
  command = record { update = some 1; goto = stay };
  trigger = pull;
  triggered_fields = [];
  error = none;
  circuit_blocked = false;
}

abbrev result : SuperstepResult ℕ String
result = record { task_outputs = output ∷ []; bubble_ups = [] }

abbrev answering : List (InterruptSignal String) → Runner ℕ ℕ String
answering signals = λ tasks state pending pad. ok (result, signals)

abbrev rounds : List (InterruptSignal String) → ℕ → Round ℕ ℕ String
rounds signals n = record {
  budget_time = 0;
  started = 0;
  ended = 0;
  run = answering signals;
  ids = ids;
}

abbrev signal : InterruptSignal String
signal = record { index = 0; id = some "ask"; payload = "a" }

sent :
    Result JunctureError (SuperstepResult ℕ String × List (InterruptSignal String))
    → List (InterruptSignal String)
sent (ok (r, signals)) = signals
sent (err e) = []

bubbled :
    Result JunctureError (SuperstepResult ℕ String × List (InterruptSignal String))
    → List (BubbleUp ℕ String)
bubbled (ok (r, signals)) = r.bubble_ups
bubbled (err e) = []

answering-Quiet : Quiet (answering [])
unfolding sent bubbled
answering-Quiet tasks state pending pad r signals e = (ap sent (sym e), ap bubbled (sym e))

drive-Ends_example : Ends env (drive env (rounds []) 3 0 (looping 0))
drive-Ends_example =
    drive-Ends env (rounds []) 3 0 (looping 0) (λ k. answering-Quiet) refl (omega arith)

after_tick-After_example : After (looping 0) (after_tick env ids (looping 0) result)
after_tick-After_example = after_tick-After env ids (looping 0) result

tick-Decided_example : Decided env 0 (looping 0) (tick env 0 (looping 0))
tick-Decided_example = tick-Decided env 0 (looping 0)

tick-status_example :
    (tick env 0 (record (looping 0) { status = interrupt_after (signal ∷ []) })).1
    ≡ (tick env 0 (looping 0)).1
tick-status_example = tick-status env 0 (looping 0) (interrupt_after (signal ∷ []))

-- The write takes the state from 5 to 6, above the limit.
after_tick-rolled_back_example :
    after_tick env ids (looping 5) result ≡ (looping 5, err (size_error env 6 5))
unfolding apply_writes check_replace_conflicts_from_state check_fields sort_outputs insert_sorted
    apply_sorted check_state_size_limit is_empty_mask merge
after_tick-rolled_back_example =
    after_tick-rolled_back env ids (looping 5) result (record { mask = 1 }) (size_error env 6 5)
      refl refl
