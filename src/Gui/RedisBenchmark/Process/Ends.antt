-- ===== src/Gui/RedisBenchmark/Process/Ends.antt =====
-- The events of a run of hkv-gui/src-tauri/src/runners/redis_benchmark.rs, as the worker of
-- hkv-gui/src-tauri/src/benchmark_manager.rs gets them.
use hybird_kv.Prelude.{
  ℕ, zero, suc, ◌≡◌, refl, Bool, true, false, List, [], ◌∷◌, ◌++◌, map, Bytes, bytes, ◌==◌, arith,
}
use hybird_kv.Prelude.Int.{ℤ, pos, negsuc}
use hybird_kv.Prelude.Float.{Float}
use hybird_kv.Common.Numbers.{show_signed}
use hybird_kv.Gui.Text.{trim, lines, non_empty}
use hybird_kv.Gui.Models.{Result, ok, err, BenchmarkResult}
use hybird_kv.Gui.Runners.{
  BenchmarkLifecycleEvent, started, progress, completed, failed, cancelled, RunnerError,
}
use hybird_kv.Gui.Benchmarks.Finishing.{IsLast}
use hybird_kv.Gui.RedisBenchmark.Output.{parse_output}
use hybird_kv.Gui.RedisBenchmark.Process.{
  read_stream, Interleaved, neither, left, right, on_parsed, exited_early, last_events,
}

module _ {F : Type 0} where
  -- Events that do not end a run.
  abbrev pub AllQuiet : List (BenchmarkLifecycleEvent F) → Type 0
  AllQuiet [] = Unit
  AllQuiet (started ∷ es) = AllQuiet es
  AllQuiet (progress _ ∷ es) = AllQuiet es
  AllQuiet _ = ⊥

  pub AllQuiet-append :
      (xs ys : List (BenchmarkLifecycleEvent F)) → AllQuiet xs → AllQuiet ys → AllQuiet (xs ++ ys)
  AllQuiet-append [] ys h k = k
  AllQuiet-append (started ∷ xs) ys h k = AllQuiet-append xs ys h k
  AllQuiet-append (progress _ ∷ xs) ys h k = AllQuiet-append xs ys h k
  AllQuiet-append (completed _ ∷ xs) ys h k = absurd h
  AllQuiet-append (failed _ ∷ xs) ys h k = absurd h
  AllQuiet-append (cancelled ∷ xs) ys h k = absurd h

pub read_stream-AllQuiet : (F : Type 0) (buffer : Bytes) → AllQuiet (read_stream {F = F} buffer)
unfolding read_stream
read_stream-AllQuiet F buffer = lines_quiet (non_empty (map trim (lines buffer)))
  where
    lines_quiet : (ss : List Bytes) → AllQuiet (map {B = BenchmarkLifecycleEvent F} progress ss)
    lines_quiet [] = tt
    lines_quiet (s ∷ ss) = lines_quiet ss

module _ {F : Type 0} where
  pub Interleaved-AllQuiet :
      {xs ys zs : List (BenchmarkLifecycleEvent F)}
      → Interleaved xs ys zs
      → AllQuiet xs
      → AllQuiet ys
      → AllQuiet zs
  Interleaved-AllQuiet neither h k = tt
  Interleaved-AllQuiet (left {e = started} i) h k = Interleaved-AllQuiet i h k
  Interleaved-AllQuiet (left {e = progress _} i) h k = Interleaved-AllQuiet i h k
  Interleaved-AllQuiet (left {e = completed _} i) h k = absurd h
  Interleaved-AllQuiet (left {e = failed _} i) h k = absurd h
  Interleaved-AllQuiet (left {e = cancelled} i) h k = absurd h
  Interleaved-AllQuiet (right {e = started} i) h k = Interleaved-AllQuiet i h k
  Interleaved-AllQuiet (right {e = progress _} i) h k = Interleaved-AllQuiet i h k
  Interleaved-AllQuiet (right {e = completed _} i) h k = absurd k
  Interleaved-AllQuiet (right {e = failed _} i) h k = absurd k
  Interleaved-AllQuiet (right {e = cancelled} i) h k = absurd k

  -- A list that begins with an event that ends a run, of which a predicate holds.
  pub record Leads (P : BenchmarkLifecycleEvent F → Type 0)
      (events : List (BenchmarkLifecycleEvent F)) : Type 0 where
    pub last : BenchmarkLifecycleEvent F
    pub late : List (BenchmarkLifecycleEvent F)
    pub leads : events ≡ last ∷ late
    pub ends : IsLast last
    pub holds : P last

  leading :
      {P : BenchmarkLifecycleEvent F → Type 0} (e : BenchmarkLifecycleEvent F)
      (late : List (BenchmarkLifecycleEvent F))
      → IsLast e
      → P e
      → Leads P (e ∷ late)
  leading e late h p = record { last = e; late = late; leads = refl; ends = h; holds = p }

not_zero : (n : ℕ) → (suc n == 0) ≡ false
not_zero n = ground arith

module _ {F : Type 0} ⦃f : Float F⦄ where
  -- The event that the end of a process calls for: by the error of `wait` or the exit code, by
  -- whether the run was stopped, and by what was printed.
  pub data Reported (stdout stderr : Bytes)
      : Result ℤ Bytes → Bool → BenchmarkLifecycleEvent F → Type 0 where
    unwaited :
        (error : Bytes) (flag : Bool)
        → Reported stdout stderr
            (err error)
            flag
            (failed (bytes "failed to wait for redis-benchmark: " ++ error))
    stopped : (code : ℤ) → Reported stdout stderr (ok code) true cancelled
    finished :
        (result : BenchmarkResult F)
        → parse_output stdout stderr ≡ ok result
        → Reported stdout stderr (ok (pos 0)) false (completed result)
    unreadable :
        (error : RunnerError)
        → parse_output {F = F} stdout stderr ≡ err error
        → Reported stdout stderr (ok (pos 0)) false (failed error.message)
    silent :
        (code : ℤ)
        → ¬ (code ≡ pos 0)
        → trim stderr ≡ []
        → Reported stdout stderr
            (ok code)
            false
            (failed (bytes "redis-benchmark exited early with code " ++ show_signed code))
    explained :
        (code : ℤ)
        → ¬ (code ≡ pos 0)
        → ¬ (trim stderr ≡ [])
        → Reported stdout stderr (ok code) false (
            failed (
              bytes "redis-benchmark exited early with code "
              ++ show_signed code
              ++ bytes ": "
              ++ stderr))

  on_parsed-Leads :
      (stdout stderr : Bytes) (r : Result (BenchmarkResult F) RunnerError)
      → parse_output stdout stderr ≡ r
      → Leads (Reported stdout stderr (ok (pos 0)) false) (on_parsed r)
  unfolding on_parsed
  on_parsed-Leads stdout stderr (ok result) h = leading _ [] tt (finished result h)
  on_parsed-Leads stdout stderr (err error) h = leading _ [] tt (unreadable error h)

  exited_early-Leads :
      (code : ℤ) (stdout stderr text : Bytes)
      → ¬ (code ≡ pos 0)
      → trim stderr ≡ text
      → Leads (Reported stdout stderr (ok code) false) (failed (exited_early code stderr) ∷ [])
  unfolding exited_early
  exited_early-Leads code stdout stderr [] h t = rw t (leading _ [] tt (silent code h t))
  exited_early-Leads code stdout stderr (x ∷ xs) h t =
      rw t (leading _ [] tt (explained code h (λ none_left. cc (t, none_left))))

  pub last_events-Leads :
      (exit : Result ℤ Bytes) (flag : Bool) (stdout stderr : Bytes)
      → Leads (Reported stdout stderr exit flag) (last_events exit flag stdout stderr)
  unfolding last_events
  last_events-Leads (err e) flag stdout stderr = leading _ [] tt (unwaited e flag)
  last_events-Leads (ok code) true stdout stderr = leading _ _ tt (stopped code)
  last_events-Leads (ok (pos zero)) false stdout stderr = on_parsed-Leads stdout stderr _ refl
  last_events-Leads (ok (pos (suc n))) false stdout stderr =
      rw (not_zero n) (exited_early-Leads (pos (suc n)) stdout stderr _ (λ h. cc h) refl)
  last_events-Leads (ok (negsuc n)) false stdout stderr =
      exited_early-Leads (negsuc n) stdout stderr _ (λ h. cc h) refl
