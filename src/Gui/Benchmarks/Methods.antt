-- ===== src/Gui/Benchmarks/Methods.antt =====
-- hkv-gui/src-tauri/src/benchmark_manager.rs: the methods of `BenchmarkManager`.
use hybird_kv.Prelude.{
  ℕ, Option, none, some, List, [], ◌∷◌, ◌++◌, map, Bytes, bytes, Outcome, ret, panic, length,
  get_elem?,
}
use hybird_kv.Gui.Models.{
  Result, ok, err, BenchmarkRunRequest, validate, BenchmarkRun, NormalizedRunSummary,
}
use hybird_kv.Gui.Runners.{RunnerError, Runner, select_runner}
use hybird_kv.Gui.Benchmarks.{
  ActiveRun, ActiveRuns, Manager, next_run_id, iso_timestamp, lifecycle_envelope, find_run,
  normalize_run,
}

module _ {F : Type 0} where
  unfoldable pub new_run : (ℕ → ℕ) → BenchmarkRunRequest → BenchmarkRun F
  unfolding next_run_id iso_timestamp
  new_run time request = record {
    id = next_run_id (time 0);
    request = request;
    status = bytes "running";
    created_at = iso_timestamp (time 1);
    started_at = some (iso_timestamp (time 2));
    finished_at = none;
    result = none;
    error_message = none;
  }

module _ {Map K F : Type 0} where
  -- `stop`, with the handle of an active run
  unfoldable pub on_active :
      (ℕ → Result Unit RunnerError)
      → Manager Map K F
      → ActiveRun
      → Outcome (Result (BenchmarkRun F) RunnerError)
  on_active stop_handle w active = elim (get_elem? w.runs active.run_index) [
    | none ↦ panic
    | some run ↦ ret (elim (stop_handle active.handle) [ ok _ ↦ ok run | err e ↦ err e ])
  ]

module _ {Map K F : Type 0} ⦃m : ActiveRuns Map⦄ where
  -- `with_sink`
  unfoldable pub new_manager : K → Manager Map K F
  new_manager sink = record {
    active_runs = m.empty;
    runs = [];
    run_events = [];
    lifecycle_events = [];
    sink = sink;
  }

  -- `start`, once the runner has started
  unfoldable pub on_handle :
      (ℕ → ℕ)
      → BenchmarkRunRequest
      → Manager Map K F
      → Result ℕ RunnerError
      → Manager Map K F × Result (BenchmarkRun F) RunnerError
  unfolding new_run lifecycle_envelope
  on_handle time request w (err e) = (w, err e)
  on_handle time request w (ok handle) =
      let run = new_run time request in
      (
        record w {
          active_runs =
              m.insert w.active_runs run.id (record { handle = handle; run_index = length w.runs });
          runs = w.runs ++ run ∷ [];
          run_events = w.run_events ++ run ∷ [];
          lifecycle_events =
              w.lifecycle_events
              ++ lifecycle_envelope (time 3) run.id (bytes "started")
                  (some (bytes "benchmark run " ++ run.id ++ bytes " started")) none
                ∷ [];
        },
        ok run,
      )

  unfoldable pub on_runner :
      (ℕ → ℕ)
      → BenchmarkRunRequest
      → Manager Map K F
      → Result Runner RunnerError
      → Manager Map K F × Result (BenchmarkRun F) RunnerError
  unfolding on_handle
  on_runner time request w (err e) = (w, err e)
  on_runner time request w (ok runner) = on_handle time request w (runner.start request)

  -- `start`, once the request is checked
  unfoldable pub on_valid :
      (Bytes → Option Bytes)
      → List Runner
      → (ℕ → ℕ)
      → BenchmarkRunRequest
      → Manager Map K F
      → Result Unit Bytes
      → Manager Map K F × Result (BenchmarkRun F) RunnerError
  unfolding on_runner select_runner
  on_valid file_name runners time request w (err message) =
      (w, err (record { code = bytes "invalid_request"; message = message }))
  on_valid file_name runners time request w (ok _) =
      on_runner time request w (select_runner file_name runners request.runner)

  unfoldable pub start :
      (Bytes → Option Bytes)
      → List Runner
      → (ℕ → ℕ)
      → BenchmarkRunRequest
      → Manager Map K F
      → Manager Map K F × Result (BenchmarkRun F) RunnerError
  unfolding on_valid validate
  start file_name runners time request w =
      on_valid file_name runners time request w (validate request)

  unfoldable pub stop :
      (ℕ → Result Unit RunnerError)
      → Bytes
      → Manager Map K F
      → Outcome (Result (BenchmarkRun F) RunnerError)
  unfolding on_active
  stop stop_handle run_id w = elim (m.get w.active_runs run_id) [
    | none ↦ ret (
        err (record {
          code = bytes "run_not_found";
          message = bytes "benchmark run '" ++ run_id ++ bytes "' is not active";
        }))
    | some active ↦ on_active stop_handle w active
  ]

module _ {Map K F : Type 0} where
  unfoldable pub list_runs : Manager Map K F → List (NormalizedRunSummary F)
  unfolding normalize_run
  list_runs w = map normalize_run w.runs

  unfoldable pub get_run : Manager Map K F → Bytes → Option (BenchmarkRun F)
  unfolding find_run
  get_run w run_id = find_run run_id w.runs
