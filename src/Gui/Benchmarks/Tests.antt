-- ===== src/Gui/Benchmarks/Tests.antt =====
-- A run of the manager of benchmarks, and what its process sends.
use hybird_kv.Prelude.{
  ℕ, suc, refl, Bool, true, Option, none, some, List, [], ◌∷◌, ◌++◌, map, Bytes, bytes, bytes_eq,
  if◌then◌else◌,
}
use hybird_kv.Prelude.Int.{pos}
use hybird_kv.Gui.Models.{ok, err, validate}
use hybird_kv.Gui.Text.{trim, trim_start, contains, strip_prefix, is_whitespace, lines, non_empty}
use hybird_kv.Gui.Runners.{
  BenchmarkLifecycleEvent, progress, cancelled, Runner, select_runner, find_runner,
  normalize_runner_type,
}
use hybird_kv.Server.Commands.{eq_ignore_ascii_case, to_lower}
use hybird_kv.Gui.Benchmarks.{ActiveRun, ActiveRuns, Sink, Manager, find_run}
use hybird_kv.Gui.Benchmarks.Methods.{new_run, start, on_valid, on_runner, on_handle}
use hybird_kv.Gui.Benchmarks.Worker.{work}
use hybird_kv.Gui.Benchmarks.Endings.{Ended}
use hybird_kv.Gui.Benchmarks.Beginning.{start-work}
use hybird_kv.Gui.RedisBenchmark.Process.{
  first_events, last_events, read_stream, neither, left, right,
}
use hybird_kv.Gui.Outcome.{Concluded, start-last_events}
use hybird_kv.Gui.Tests.{bits, request}

instance by_id : ActiveRuns (Bytes → Option ActiveRun)
by_id = record {
  empty = λ k. none;
  get = λ m k. m k;
  insert = λ m k a j. if bytes_eq k j then some a else m j;
  remove = λ m k j. if bytes_eq k j then none else m j;
  get-empty = λ k. refl;
  get-insert = λ m k a j. refl;
  get-remove = λ m k j. refl;
}

-- A store that counts, and refuses.
instance full : Sink ℕ Bool
full = record { persist = λ run n. (suc n, err (bytes "disk full")) }

abbrev runner : Runner
runner = record { runner_type = bytes "redis-benchmark"; start = λ r. ok 3 }

abbrev clock : ℕ → ℕ
clock i = 1000

abbrev manager : Manager (Bytes → Option ActiveRun) ℕ Bool
manager = record {
  active_runs = λ k. none;
  runs = [];
  run_events = [];
  lifecycle_events = [];
  sink = 0;
}

start-work_example :
    Ended
      (start (λ p. none) (runner ∷ []) clock request manager).0
      (new_run {F = Bool} clock request).id
      0
      clock
      cancelled
      (new_run clock request)
      (work
        (new_run {F = Bool} clock request).id
        ((clock, progress (bytes "50%")) ∷ (clock, cancelled) ∷ [])
        (start (λ p. none) (runner ∷ []) clock request manager).0)
unfolding find_run start on_valid on_runner on_handle validate trim trim_start is_whitespace
    contains strip_prefix select_runner find_runner normalize_runner_type eq_ignore_ascii_case
    to_lower bytes_eq
start-work_example =
    start-work (λ p. none) (runner ∷ []) clock clock request manager (new_run clock request)
      ((clock, progress (bytes "50%")) ∷ []) [] cancelled refl refl tt tt

read : Unit {0}
unfolding read_stream lines non_empty trim trim_start is_whitespace first_events last_events
read = tt

abbrev printed : List (BenchmarkLifecycleEvent Bool)
printed = progress (bytes "warmup") ∷ progress (bytes "a") ∷ []

-- a process that was stopped
abbrev after_exit : List (BenchmarkLifecycleEvent Bool)
after_exit = last_events (ok (pos 2)) true (bytes "a\n") (bytes "warmup\n")

abbrev timed : List ((ℕ → ℕ) × BenchmarkLifecycleEvent Bool)
timed = map (λ e. (clock, e)) (first_events request ++ (printed ++ after_exit))

start-last_events_example :
    Concluded
      (bytes "a\n")
      (bytes "warmup\n")
      (ok (pos 2))
      true
      (start (λ p. none) (runner ∷ []) clock request manager).0
      (new_run {F = Bool} clock request)
      0
      timed
unfolding read find_run start on_valid on_runner on_handle validate contains strip_prefix
    select_runner find_runner normalize_runner_type eq_ignore_ascii_case to_lower bytes_eq
start-last_events_example =
    start-last_events (λ p. none) (runner ∷ []) clock request manager (new_run clock request)
      (bytes "a\n") (bytes "warmup\n") printed (ok (pos 2)) true timed refl refl
      (right (left neither)) refl
