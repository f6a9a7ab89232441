-- ===== src/Gui/Runners.antt =====
-- hkv-gui/src-tauri/src/runners/mod.rs: the events of a run, and the choice of a runner. A runner's
-- `start` is its own, and the handle that it gives is known by a number; `Path::file_name` is the
-- library's.
use hybird_kv.Prelude.{
  ℕ, ◌||◌, Option, none, some, List, [], ◌∷◌, ◌++◌, Bytes, bytes, bytes_eq, if◌then◌else◌,
}
use hybird_kv.Server.Commands.{eq_ignore_ascii_case}
use hybird_kv.Gui.Models.{Result, ok, err, BenchmarkRunRequest, BenchmarkResult}

pub data BenchmarkLifecycleEvent (F : Type 0) : Type 0 where
  started : BenchmarkLifecycleEvent F
  progress : Bytes → BenchmarkLifecycleEvent F
  completed : BenchmarkResult F → BenchmarkLifecycleEvent F
  failed : Bytes → BenchmarkLifecycleEvent F
  cancelled : BenchmarkLifecycleEvent F

pub record RunnerError : Type 0 where
  pub code : Bytes
  pub message : Bytes

-- `BenchmarkRunner`
pub record Runner : Type 0 where
  pub runner_type : Bytes
  pub start : BenchmarkRunRequest → Result ℕ RunnerError

-- `normalize_runner_type`
unfoldable pub normalize_runner_type : (Bytes → Option Bytes) → Bytes → Bytes
normalize_runner_type file_name runner_type =
    let name : Bytes = elim (file_name runner_type) [ none ↦ runner_type | some name ↦ name ] in
    if eq_ignore_ascii_case name (bytes "redis-benchmark")
      || eq_ignore_ascii_case name (bytes "redis-benchmark.exe")
    then bytes "redis-benchmark"
    else runner_type

unfoldable pub find_runner : Bytes → List Runner → Option Runner
find_runner normalized [] = none
find_runner normalized (r ∷ rs) =
    let rest = find_runner normalized rs in
    if bytes_eq r.runner_type normalized then some r else rest

unfoldable pub select_runner :
    (Bytes → Option Bytes) → List Runner → Bytes → Result Runner RunnerError
unfolding normalize_runner_type find_runner
select_runner file_name runners runner_type =
    elim (find_runner (normalize_runner_type file_name runner_type) runners) [
      | some r ↦ ok r
      | none ↦ err (record {
        code = bytes "unsupported_runner";
        message = bytes "runner '" ++ runner_type ++ bytes "' is not supported";
      })
    ]
