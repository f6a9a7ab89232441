-- ===== src/Gui/Outcome.antt =====
-- A run of redis-benchmark from the runner of hkv-gui/src-tauri/src/runners/redis_benchmark.rs
-- through the worker of hkv-gui/src-tauri/src/benchmark_manager.rs.
use hybird_kv.Prelude.{
  ℕ, ◌≡◌, refl, sym, ap, ◌∙◌, subst, Bool, Option, none, List, [], ◌∷◌, ◌++◌, map, Bytes,
  append_assoc, length,
}
use hybird_kv.Prelude.Int.{ℤ}
use hybird_kv.Prelude.Float.{Float}
use hybird_kv.Gui.Models.{Result, ok, BenchmarkRun, BenchmarkRunRequest}
use hybird_kv.Gui.Runners.{
  BenchmarkLifecycleEvent, started, progress, completed, failed, cancelled, Runner,
}
use hybird_kv.Gui.Benchmarks.{next_run_id, ActiveRuns, Sink, Manager, find_run}
use hybird_kv.Gui.Benchmarks.Methods.{start}
use hybird_kv.Gui.Benchmarks.Worker.{work}
use hybird_kv.Gui.Benchmarks.Finishing.{Timed, Quiet}
use hybird_kv.Gui.Benchmarks.Endings.{Ended}
use hybird_kv.Gui.Benchmarks.Beginning.{start-work}
use hybird_kv.Gui.RedisBenchmark.Process.{read_stream, Interleaved, first_events, last_events}
use hybird_kv.Gui.RedisBenchmark.Process.Ends.{
  AllQuiet, AllQuiet-append, Interleaved-AllQuiet, read_stream-AllQuiet, Leads, Reported,
  last_events-Leads,
}

module _ {F : Type 0} where
  abbrev pub event_of : Timed F → BenchmarkLifecycleEvent F
  event_of (time, e) = e

  -- Timed events that are divided where their events are.
  record Divided (before : List (BenchmarkLifecycleEvent F)) (e : BenchmarkLifecycleEvent F)
      (events : List (Timed F)) : Type 0 where
    early : List (Timed F)
    time : ℕ → ℕ
    late : List (Timed F)
    splits : events ≡ early ++ (time, e) ∷ late
    same : map event_of early ≡ before

  divide :
      (before late : List (BenchmarkLifecycleEvent F)) (e : BenchmarkLifecycleEvent F)
      (events : List (Timed F))
      → map event_of events ≡ before ++ e ∷ late
      → Divided before e events
  divide [] late e [] h = absurd (cc h)
  divide [] late e ((t, x) ∷ events) h = record {
    early = [];
    time = t;
    late = events;
    splits = ap (λ y. (t, y) ∷ events) (cc h);
    same = refl;
  }
  divide (b ∷ before) late e [] h = absurd (cc h)
  divide (b ∷ before) late e ((t, x) ∷ events) h =
      let s : Divided before e events = divide before late e events (cc h) in
      record {
        early = (t, x) ∷ s.early;
        time = s.time;
        late = s.late;
        splits = ap (◌∷◌ (t, x)) s.splits;
        same = cc (h, s.same);
      }

  Quiet-map : (events : List (Timed F)) → AllQuiet (map event_of events) → Quiet events
  Quiet-map [] h = tt
  Quiet-map ((t, started) ∷ events) h = Quiet-map events h
  Quiet-map ((t, progress _) ∷ events) h = Quiet-map events h
  Quiet-map ((t, completed _) ∷ events) h = absurd h
  Quiet-map ((t, failed _) ∷ events) h = absurd h
  Quiet-map ((t, cancelled) ∷ events) h = absurd h

module _ {Map K F : Type 0} ⦃m : ActiveRuns Map⦄ ⦃k : Sink K F⦄ ⦃f : Float F⦄ where
  -- The worker has ended, at some time, with the event that the end of the process calls for.
  pub record Concluded (stdout stderr : Bytes) (exit : Result ℤ Bytes) (flag : Bool)
      (w : Manager Map K F) (run : BenchmarkRun F) (index : ℕ) (timed : List (Timed F))
      : Type 0 where
    pub last : BenchmarkLifecycleEvent F
    pub time : ℕ → ℕ
    pub reported : Reported stdout stderr exit flag last
    pub ended : Ended w run.id index time last run (work run.id timed w)

  -- A run that `start` returns, under an identifier that no run had, and whose channel brings what
  -- a redis-benchmark process sends, whatever it prints and in whatever order its two readers send
  -- it, and however it ends: the worker ends without a panic. The run then has the status "failed"
  -- with the error of `wait`, if that fails; else "cancelled" if it was stopped; else, if the exit
  -- code is 0, "completed" with the result that is read from what was printed, or "failed" with the
  -- error of that reading; else "failed" with the code and, unless it is blank, the text of the
  -- error stream. It is handed to the store once, sent, and active no more, as at the end of any
  -- run.
  pub start-last_events :
      (file_name : Bytes → Option Bytes) (runners : List Runner) (begun : ℕ → ℕ)
      (request : BenchmarkRunRequest) (w : Manager Map K F) (run : BenchmarkRun F)
      (stdout stderr : Bytes) (printed : List (BenchmarkLifecycleEvent F)) (exit : Result ℤ Bytes)
      (flag : Bool) (timed : List (Timed F))
      → find_run (next_run_id (begun 0)) w.runs ≡ none
      → (start file_name runners begun request w).1 ≡ ok run
      → Interleaved (read_stream stdout) (read_stream stderr) printed
      → map event_of timed
        ≡ first_events request ++ (printed ++ last_events exit flag stdout stderr)
      → Concluded stdout stderr exit flag
          (start file_name runners begun request w).0
          run
          (length w.runs)
          timed
  unfolding first_events
  start-last_events file_name runners begun request w run stdout stderr printed exit flag timed
        fresh h i e =
      let l : Leads (Reported stdout stderr exit flag) (last_events exit flag stdout stderr) =
        last_events-Leads exit flag stdout stderr in
      let before = first_events request ++ printed in
      let s : Divided before l.last timed = divide before l.late l.last timed (
        e
        ∙ ap (λ es. first_events request ++ (printed ++ es)) l.leads
        ∙ sym (append_assoc (first_events request) printed (l.last ∷ l.late))) in
      let quiet : AllQuiet before =
        AllQuiet-append (first_events request) printed (tt {0}) (
          Interleaved-AllQuiet i (read_stream-AllQuiet F stdout) (read_stream-AllQuiet F stderr)) in
      record {
        last = l.last;
        time = s.time;
        reported = l.holds;
        ended =
            subst
              (λ es.
                Ended (start file_name runners begun request w).0 run.id (length w.runs) s.time
                  l.last run (work run.id es (start file_name runners begun request w).0))
              (sym s.splits)
              (start-work file_name runners begun s.time request w run s.early s.late l.last fresh h
                (Quiet-map s.early (subst AllQuiet (sym s.same) quiet)) l.ends);
      }
