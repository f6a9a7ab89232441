-- ===== src/Gui/Benchmarks.antt =====
-- hkv-gui/src-tauri/src/benchmark_manager.rs: `BenchmarkManager`. A method, and what the worker of
-- a run does with an event, runs as one step. The map of active runs, the runners and the sink are
-- interfaces; `time` gives the milliseconds of each reading of the clock by its number.
pub mod Methods
mod Tests
pub mod Worker
pub mod Finishing
pub mod Lifecycle
pub mod Endings
pub mod Beginning
use hybird_kv.Prelude.{
  ℕ, suc, ◌/◌, ◌&&◌, ◌||◌, not, Bool, true, false, Option, none, some, List, [], ◌∷◌, ◌++◌, map,
  Bytes, bytes, bytes_eq, Outcome, ret, panic, length, get_elem?, set, ◌≡◌, ◌==◌, if◌then◌else◌,
}
use hybird_kv.Prelude.Float.{Float}
use hybird_kv.Common.Numbers.{show}
use hybird_kv.Gui.Models.{
  Result, ok, err, BenchmarkRunRequest, validate, BenchmarkResult, BenchmarkRun,
  NormalizedRunSummary, BenchmarkEventEnvelope, benchmark_event_channel,
}
use hybird_kv.Gui.Runners.{
  BenchmarkLifecycleEvent, started, progress, completed, failed, cancelled, RunnerError, Runner,
  select_runner,
}

pub record ActiveRun : Type 0 where
  pub handle : ℕ
  pub run_index : ℕ

-- What is relied on of the map from identifiers to active runs.
pub record ActiveRuns (Map : Type 0) : Type 0 where
  pub empty : Map
  pub get : Map → Bytes → Option ActiveRun
  pub insert : Map → Bytes → ActiveRun → Map
  pub remove : Map → Bytes → Map
  pub get-empty : (k : Bytes) → get empty k ≡ none
  pub get-insert :
      (m : Map) (k : Bytes) (a : ActiveRun) (j : Bytes)
      → get (insert m k a) j ≡ (if bytes_eq k j then some a else get m j)
  pub get-remove :
      (m : Map) (k j : Bytes) → get (remove m k) j ≡ (if bytes_eq k j then none else get m j)

-- `BenchmarkRunSink`, with the state `K` of the store behind it
pub record Sink (K F : Type 0) : Type 0 where
  pub persist : BenchmarkRun F → K → K × Result Unit Bytes

-- The manager: its state, what it has sent on its two channels, and the sink.
pub record Manager (Map K F : Type 0) : Type 0 where
  pub active_runs : Map
  pub runs : List (BenchmarkRun F)
  pub run_events : List (BenchmarkRun F)
  pub lifecycle_events : List BenchmarkEventEnvelope
  pub sink : K

unfoldable pub next_run_id : ℕ → Bytes
next_run_id millis = bytes "run-" ++ show millis

unfoldable pub iso_timestamp : ℕ → Bytes
iso_timestamp millis = show (millis / 1000) ++ bytes "Z"

unfoldable pub get_or_insert : Option Bytes → Bytes → Option Bytes
get_or_insert none time = some time
get_or_insert (some old) time = some old

-- the derived equality of a run: that of its fields
abbrev pub option_eq : {A : Type 0} → (A → A → Bool) → Option A → Option A → Bool
option_eq eq none none = true
option_eq eq (some a) (some b) = eq a b
option_eq eq _ _ = false

abbrev pub request_eq : BenchmarkRunRequest → BenchmarkRunRequest → Bool
request_eq a b =
    bytes_eq a.runner b.runner
    && bytes_eq a.target_addr b.target_addr
    && a.clients == b.clients
    && a.requests == b.requests
    && a.data_size == b.data_size
    && a.pipeline == b.pipeline

unfoldable pub lifecycle_event_name : {F : Type 0} → BenchmarkLifecycleEvent F → Bytes
lifecycle_event_name started = bytes "started"
lifecycle_event_name (progress _) = bytes "running"
lifecycle_event_name (completed _) = bytes "completed"
lifecycle_event_name (failed _) = bytes "failed"
lifecycle_event_name cancelled = bytes "cancelled"

unfoldable pub lifecycle_envelope :
    ℕ → Bytes → Bytes → Option Bytes → Option Bytes → BenchmarkEventEnvelope
unfolding iso_timestamp
lifecycle_envelope now run_id event message error = record {
  channel = benchmark_event_channel;
  event = event;
  run_id = run_id;
  emitted_at = iso_timestamp now;
  message = message;
  error = error;
}

abbrev pub is_some : {A : Type 0} → Option A → Bool
is_some none = false
is_some (some _) = true

module _ {F : Type 0} where
  unfoldable pub progress_message : BenchmarkLifecycleEvent F → Option Bytes
  progress_message (progress message) = some message
  progress_message _ = none

  unfoldable pub failure_detail : BenchmarkLifecycleEvent F → Option Bytes
  failure_detail (failed message) = some message
  failure_detail _ = none

  -- what an event does to its run
  unfoldable pub apply_event : ℕ → BenchmarkLifecycleEvent F → BenchmarkRun F → BenchmarkRun F
  unfolding get_or_insert iso_timestamp
  apply_event now started run = record run {
    status = bytes "running";
    started_at = get_or_insert run.started_at (iso_timestamp now);
  }
  apply_event now (progress _) run = record run { status = bytes "running" }
  apply_event now (completed result) run = record run {
    status = bytes "completed";
    result = some result;
    finished_at = some (iso_timestamp now);
  }
  apply_event now (failed message) run = record run {
    status = bytes "failed";
    error_message = some message;
    finished_at = some (iso_timestamp now);
  }
  apply_event now cancelled run = record run {
    status = bytes "cancelled";
    finished_at = some (iso_timestamp now);
  }

  -- `find`, by the identifier
  unfoldable pub find_run : Bytes → List (BenchmarkRun F) → Option (BenchmarkRun F)
  find_run id [] = none
  find_run id (run ∷ runs) =
      let rest = find_run id runs in if bytes_eq run.id id then some run else rest

  -- an update of the run that `find` gives
  unfoldable pub update_run :
      Bytes → (BenchmarkRun F → BenchmarkRun F) → List (BenchmarkRun F) → List (BenchmarkRun F)
  update_run id change [] = []
  update_run id change (run ∷ runs) =
      let rest = update_run id change runs in
      if bytes_eq run.id id then change run ∷ runs else run ∷ rest

  unfoldable pub normalize_run : BenchmarkRun F → NormalizedRunSummary F
  normalize_run run = record {
    id = run.id;
    runner = run.request.runner;
    status = run.status;
    target_addr = run.request.target_addr;
    created_at = run.created_at;
    finished_at = run.finished_at;
    throughput_ops_per_sec = elim run.result [
      | none ↦ none
      | some r ↦ some r.throughput_ops_per_sec
    ];
    p95_latency_ms = elim run.result [ none ↦ none | some r ↦ some r.p95_latency_ms ];
  }

module _ {F : Type 0} ⦃f : Float F⦄ where
  abbrev result_eq : BenchmarkResult F → BenchmarkResult F → Bool
  result_eq a b =
      a.total_requests == b.total_requests
      && f.eq a.throughput_ops_per_sec b.throughput_ops_per_sec
      && f.eq a.average_latency_ms b.average_latency_ms
      && f.eq a.p50_latency_ms b.p50_latency_ms
      && f.eq a.p95_latency_ms b.p95_latency_ms
      && f.eq a.p99_latency_ms b.p99_latency_ms
      && a.duration_ms == b.duration_ms
      && a.dataset_bytes == b.dataset_bytes

  unfoldable pub run_eq : BenchmarkRun F → BenchmarkRun F → Bool
  run_eq a b =
      bytes_eq a.id b.id
      && request_eq a.request b.request
      && bytes_eq a.status b.status
      && bytes_eq a.created_at b.created_at
      && option_eq bytes_eq a.started_at b.started_at
      && option_eq bytes_eq a.finished_at b.finished_at
      && option_eq result_eq a.result b.result
      && option_eq bytes_eq a.error_message b.error_message
