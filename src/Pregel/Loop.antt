-- ===== src/Pregel/Loop.antt =====
-- crates/juncture-core/src/pregel/loop_.rs: the state of `PregelLoop`, and its
-- construction. Metrics, tracing, callbacks
-- and stream events are left out, and so are the fields that only they or the task runner read.
-- `S` is the user's state, `U` its updates, `J` the JSON values, `F` the type of costs, and `W` the
-- checkpointer.
pub mod Tick
pub mod Saving
pub mod Superstep
pub mod Merging
pub mod AfterTick
pub mod Run
pub mod Ticking
pub mod Ignored
pub mod Keeping
pub mod Progress
pub mod Quiet
pub mod Bounded
pub mod Rollback
use juncture.Prelude.{
  ℕ, ◌+◌, String, Bool, true, false, ◌||◌, Option, none, some, List, [], ◌∷◌, str_eq, if◌then◌else◌,
  Map,
}
use Prim.Native.String.{◌++◌ as concat}
use juncture.Prelude.Result.{Result, ok, err}
use juncture.State.Fields.{State, FieldsChanged, no_fields}
use juncture.Pregel.Types.{
  JunctureError, execution, recursion_limit, start_node, PendingTask, pull_task, TriggerTable,
  TriggerSource, edge, send_from, LoopStatus, running, done, out_of_steps, budget_exceeded,
  cancelled, interrupt_before, Command,
}
use juncture.Pregel.Versions.{FieldVersionTracker, VersionsSeen, new_seen}
use juncture.Pregel.Versions as Versions
use juncture.Pregel.Schedule.{TriggerToNodes, from_trigger_table}
use juncture.Pregel.Recovery.{PendingWrite}
use juncture.Pregel.Snapshots.{DeltaCounters, finish_all_channels}
use juncture.Pregel.BudgetTracker.{BudgetTracker, BudgetExceededReason, check}
use juncture.Pregel.Interrupts.{InterruptSignal, should_interrupt, Scratchpad, new_scratchpad}
use juncture.Graph.Breaker.{CircuitBreakerConfig, CircuitBreakerState}

pub data Durability : Type 0 where
  async sync exit : Durability

pub record ResourceLimits : Type 0 where
  pub max_state_size_bytes : Option ℕ

-- The settings that the modelled parts read.
pub record RunnableConfig : Type 0 where
  pub recursion_limit : ℕ
  pub interrupt_before : Option (List String)
  pub interrupt_after : Option (List String)
  pub resource_limits : Option ResourceLimits
  pub durability : Option Durability
  pub checkpoint_id : Option String

pub data CheckpointSource : Type 0 where
  input from_loop update fork : CheckpointSource
  from_interrupt : String → CheckpointSource

-- `CheckpointMetadata`, but for the writes, the parents and the return value, always empty here.
pub record CheckpointMetadata : Type 0 where
  pub source : CheckpointSource
  pub step : ℕ
  pub run_id : String

-- `CheckpointPendingTask`, whose triggers and state are always left empty here.
pub record CheckpointPendingTask : Type 0 where
  pub id : String
  pub node : String

-- `Checkpoint`, but for its schema version, its creation time and `pending_sends`, always empty.
pub record Checkpoint (J : Type 0) : Type 0 where
  pub id : String
  pub channel_values : J
  pub channel_versions : Map ℕ
  pub versions_seen : Map (Map ℕ)
  pub pending_tasks : List CheckpointPendingTask
  pub pending_interrupts : List (InterruptSignal J)
  pub v : ℕ
  pub new_versions : Map ℕ
  pub counters_since_delta_snapshot : Map DeltaCounters

-- What the loop calls and does not define: the user's state type, serde, the checkpointer, and the
-- texts and hashes that the standard library and `xxhash` compute. `put` gives the saver after a
-- write beside its answer, the updated checkpoint id; `get_tuple` gives the pending writes of the
-- tuple, or `none` where there is no tuple or the call fails.
pub record Env (S U J F W : Type 0) : Type 0 where
  pub ops : State S U
  pub field_names_len : ℕ
  pub delta_channel_specs : List (ℕ × ℕ)
  pub to_vec_len : S → Result String ℕ
  pub to_value : S → Result String J
  pub from_value : J → Result String S
  pub show : ℕ → String
  pub show_reason : BudgetExceededReason F → String
  pub from_micros : ℕ → F
  pub is_above : F → F → Bool
  pub interrupt_id : String → ℕ → String
  pub payload : String → String → J
  pub payload_node : J → Option String
  pub as_str : J → Option String
  pub put :
      W → Option String → Checkpoint J → CheckpointMetadata → W × Result String (Option String)
  pub get_tuple : W → Option String → Option (List (PendingWrite J))

pub record PregelLoop (S U J F W : Type 0) : Type 0 where
  pub state : S
  pub nodes : List String
  pub node_registration : Map ℕ
  pub trigger_table : TriggerTable S
  pub field_versions : FieldVersionTracker
  pub versions_seen : VersionsSeen
  pub runnable_config : RunnableConfig
  pub is_cancelled : Bool
  pub checkpointer : Option W
  pub step : ℕ
  pub status : LoopStatus (InterruptSignal J)
  pub pending_tasks : List (PendingTask S J)
  pub previous_superstep_changed_fields : FieldsChanged
  pub budget_tracker : Option (BudgetTracker F)
  pub drain_requested : Bool
  pub run_id : String
  pub interrupt_rx : Option (List (InterruptSignal J))
  pub pending_interrupts : List (InterruptSignal J)
  pub scratchpad : Scratchpad J
  pub interrupt_versions_seen : Map ℕ
  pub error_handler_map : Map String
  pub trigger_to_nodes : TriggerToNodes
  pub circuit_breaker_configs : Map CircuitBreakerConfig
  pub circuit_breaker_states : Map CircuitBreakerState
  pub fallback_map : Map String
  pub delta_counters : Map DeltaCounters
  pub channels_finished : Bool

-- Some source of the node is an edge from the start marker.
unfoldable pub starts : List TriggerSource → Bool
starts [] = false
starts (edge from ∷ sources) = str_eq from start_node || starts sources
starts (send_from from ∷ sources) = starts sources

-- `n` tasks are pushed already.
unfoldable pub initial_tasks :
    {S J : Type 0} → (ℕ → String) → ℕ → Map (List TriggerSource) → List (PendingTask S J)
initial_tasks uuid n [] = []
initial_tasks uuid n ((node_name, sources) ∷ rest) =
    let here = pull_task (uuid n) node_name ∷ initial_tasks uuid (n + 1) rest in
    let without = initial_tasks uuid n rest in if starts sources then here else without

unfoldable pub compute_initial_tasks :
    {S J : Type 0} → (ℕ → String) → TriggerTable S → List (PendingTask S J)
compute_initial_tasks uuid table = initial_tasks uuid 0 table.incoming

-- The registration numbers: `n` names come before.
unfoldable pub enumerate : ℕ → List String → Map ℕ
enumerate n [] = []
enumerate n (name ∷ names) = (name, n) ∷ enumerate (n + 1) names

module _ {S U J F W : Type 0} where
  -- More than 64 fields are refused by an assertion.
  unfoldable pub with_error_handlers :
      S
      → List String
      → TriggerTable S
      → RunnableConfig
      → ℕ
      → Map String
      → (ℕ → String)
      → String
      → Option (PregelLoop S U J F W)
  with_error_handlers state nodes table config num_fields error_handler_map uuid run_id =
      elim (Versions.new_tracker num_fields) [
        | none ↦ none
        | some field_versions ↦ some (record {
          state = state;
          nodes = nodes;
          node_registration = enumerate 0 nodes;
          trigger_table = table;
          field_versions = field_versions;
          versions_seen = new_seen nodes num_fields;
          runnable_config = config;
          is_cancelled = false;
          checkpointer = none;
          step = 0;
          status = running;
          pending_tasks = compute_initial_tasks uuid table;
          previous_superstep_changed_fields = no_fields;
          budget_tracker = none;
          drain_requested = false;
          run_id = run_id;
          interrupt_rx = none;
          pending_interrupts = [];
          scratchpad = new_scratchpad;
          interrupt_versions_seen = [];
          error_handler_map = error_handler_map;
          trigger_to_nodes = from_trigger_table table;
          circuit_breaker_configs = [];
          circuit_breaker_states = [];
          fallback_map = [];
          delta_counters = [];
          channels_finished = false;
        })
      ]

  -- `RunControl::request_drain`
  unfoldable pub request_drain : PregelLoop S U J F W → PregelLoop S U J F W
  request_drain l = record l { drain_requested = true }

-- The channels `field_{idx}` with their versions: the next index is `idx`.
unfoldable pub named_from : (ℕ → String) → ℕ → List ℕ → Map ℕ
named_from show idx [] = []
named_from show idx (ver ∷ versions) =
    (concat "field_" (show idx), ver) ∷ named_from show (idx + 1) versions

unfoldable pub channel_versions : (ℕ → String) → FieldVersionTracker → Map ℕ
channel_versions show t = named_from show 0 t.versions
