-- ===== src/Gui/RedisBenchmark/Process.antt =====
-- hkv-gui/src-tauri/src/runners/redis_benchmark.rs: what a run sends to its channel, from the
-- command line to the end of its process. The process is a parameter: its answers are arguments,
-- and what its two readers send comes in any order.
pub mod Ends
use hybird_kv.Prelude.{
  ℕ, Bool, true, false, Option, none, some, List, [], ◌∷◌, ◌++◌, map, Bytes, bytes, ◌==◌,
  if◌then◌else◌,
}
use hybird_kv.Prelude.Int.{ℤ, pos, negsuc}
use hybird_kv.Prelude.Float.{Float}
use hybird_kv.Common.Numbers.{show, show_signed}
use hybird_kv.Gui.Text.{is_empty, trim, lines, non_empty}
use hybird_kv.Gui.Models.{Result, ok, err, BenchmarkRunRequest, BenchmarkResult}
use hybird_kv.Gui.Runners.{
  BenchmarkLifecycleEvent, started, progress, completed, failed, cancelled, RunnerError,
}
use hybird_kv.Gui.RedisBenchmark.{validate_request, build_command}
use hybird_kv.Gui.RedisBenchmark.Output.{parse_output}

unfoldable pub exited_early : ℤ → Bytes → Bytes
exited_early code stderr =
    if is_empty (trim stderr)
    then bytes "redis-benchmark exited early with code " ++ show_signed code
    else bytes "redis-benchmark exited early with code " ++ show_signed code ++ bytes ": " ++ stderr

abbrev pub is_zero : ℤ → Bool
is_zero (pos n) = n == 0
is_zero (negsuc n) = false

module _ {F : Type 0} where
  -- `read_stream`: the lines of the text, without those that are blank
  unfoldable pub read_stream : Bytes → List (BenchmarkLifecycleEvent F)
  unfolding non_empty lines
  read_stream buffer = map progress (non_empty (map trim (lines buffer)))

  -- What two threads send, each in its own order.
  pub data Interleaved
      : List (BenchmarkLifecycleEvent F)
        → List (BenchmarkLifecycleEvent F)
        → List (BenchmarkLifecycleEvent F)
        → Type 0 where
    neither : Interleaved [] [] []
    left :
        {xs ys zs : List (BenchmarkLifecycleEvent F)} {e : BenchmarkLifecycleEvent F}
        → Interleaved xs ys zs
        → Interleaved (e ∷ xs) ys (e ∷ zs)
    right :
        {xs ys zs : List (BenchmarkLifecycleEvent F)} {e : BenchmarkLifecycleEvent F}
        → Interleaved xs ys zs
        → Interleaved xs (e ∷ ys) (e ∷ zs)

  -- what `start` sends before it returns
  unfoldable pub first_events : BenchmarkRunRequest → List (BenchmarkLifecycleEvent F)
  first_events r =
      started
      ∷ progress (
          bytes "started redis-benchmark against "
          ++ r.target_addr
          ++ bytes " with "
          ++ show r.clients
          ++ bytes " clients")
      ∷ []

  unfoldable pub on_parsed :
      Result (BenchmarkResult F) RunnerError → List (BenchmarkLifecycleEvent F)
  on_parsed (ok result) = completed result ∷ []
  on_parsed (err error) = failed error.message ∷ []

  -- what the observer sends, by the exit code or the error of `wait`, and by `cancelled`
  unfoldable pub last_events :
      ⦃f : Float F⦄ → Result ℤ Bytes → Bool → Bytes → Bytes → List (BenchmarkLifecycleEvent F)
  unfolding on_parsed exited_early parse_output
  last_events (err e) flag stdout stderr =
      failed (bytes "failed to wait for redis-benchmark: " ++ e) ∷ []
  last_events (ok code) true stdout stderr =
      cancelled ∷ progress (bytes "redis-benchmark cancelled") ∷ []
  last_events (ok code) false stdout stderr =
      if is_zero code
      then on_parsed (parse_output stdout stderr)
      else failed (exited_early code stderr) ∷ []

-- `start`, up to the threads: an error, or the events that are sent before it returns. `spawned` is
-- the answer to the command line: an error, or whether the two streams were captured.
unfoldable pub start :
    {F : Type 0}
    → (List Bytes → Result (Bool × Bool) RunnerError)
    → BenchmarkRunRequest
    → Result (List (BenchmarkLifecycleEvent F)) RunnerError
unfolding validate_request build_command first_events
start spawned r = elim (validate_request r) [
  | err e ↦ err e
  | ok _ ↦ elim (build_command r) [
    | err e ↦ err e
    | ok args ↦ elim (spawned args) [
      | err e ↦ err e
      | ok captured ↦
          if captured.0
          then (if captured.1
              then ok (first_events r)
              else err (record {
                code = bytes "spawn_failed";
                message = bytes "redis-benchmark stderr was not captured";
              }))
          else err (record {
            code = bytes "spawn_failed";
            message = bytes "redis-benchmark stdout was not captured";
          })
    ]
  ]
]
