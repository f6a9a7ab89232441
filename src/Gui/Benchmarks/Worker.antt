-- ===== src/Gui/Benchmarks/Worker.antt =====
-- hkv-gui/src-tauri/src/benchmark_manager.rs: `spawn_event_worker`, the thread that follows a run.
-- It receives the events of the run's channel in their order.
use hybird_kv.Prelude.{
  ℕ, ◌||◌, not, Bool, true, false, Option, none, some, List, [], ◌∷◌, ◌++◌, Bytes, bytes, Outcome,
  ret, panic, ◌>>=◌, get_elem?, set, if◌then◌else◌,
}
use hybird_kv.Prelude.Float.{Float}
use hybird_kv.Gui.Models.{Result, ok, err, BenchmarkRun}
use hybird_kv.Gui.Runners.{BenchmarkLifecycleEvent}
use hybird_kv.Gui.Benchmarks.{
  ActiveRuns, Sink, Manager, get_or_insert, iso_timestamp, lifecycle_event_name, lifecycle_envelope,
  progress_message, failure_detail, is_some, apply_event, find_run, update_run, run_eq,
}

module _ {F : Type 0} where
  unfoldable pub persist_failure : ℕ → Bytes → BenchmarkRun F → BenchmarkRun F
  unfolding get_or_insert iso_timestamp
  persist_failure now error run = record run {
    status = bytes "failed";
    error_message = some (bytes "failed to persist run: " ++ error);
    finished_at = get_or_insert run.finished_at (iso_timestamp now);
  }

module _ {Map K F : Type 0} where
  -- the run with that identifier has failed to persist
  unfoldable pub on_failed_run :
      (ℕ → ℕ) → Bytes → Manager Map K F → Option (BenchmarkRun F) → Manager Map K F
  unfolding persist_failure update_run lifecycle_envelope
  on_failed_run time error w none = w
  on_failed_run time error w (some run) =
      let failed_run = persist_failure (time 2) error run in
      record w {
        runs = update_run run.id (persist_failure (time 2) error) w.runs;
        run_events = w.run_events ++ failed_run ∷ [];
        lifecycle_events =
            w.lifecycle_events
            ++ lifecycle_envelope (time 3) failed_run.id (bytes "failed") none
                failed_run.error_message
              ∷ [];
      }

  unfoldable pub on_persisted :
      (ℕ → ℕ) → Manager Map K F → BenchmarkRun F → K × Result Unit Bytes → Manager Map K F
  unfolding on_failed_run find_run
  on_persisted time w current (sink, ok _) = record w { sink = sink }
  on_persisted time w current (sink, err error) =
      on_failed_run time error (record w { sink = sink }) (find_run current.id w.runs)

  -- the events that a change of a run sends
  unfoldable pub announce :
      ℕ → BenchmarkLifecycleEvent F → BenchmarkRun F → Bool → Manager Map K F → Manager Map K F
  unfolding lifecycle_event_name lifecycle_envelope progress_message failure_detail
  announce now event current changed w = record w {
    run_events = if changed then w.run_events ++ current ∷ [] else w.run_events;
    lifecycle_events =
        if changed || (is_some (progress_message event) || is_some (failure_detail event))
        then (w.lifecycle_events
            ++ lifecycle_envelope now current.id (lifecycle_event_name event)
                (progress_message event) (failure_detail event)
              ∷ [])
        else w.lifecycle_events;
  }

module _ {Map K F : Type 0} ⦃m : ActiveRuns Map⦄ ⦃k : Sink K F⦄ ⦃f : Float F⦄ where
  -- the end of a run whose record has been written back
  unfoldable pub on_finished : (ℕ → ℕ) → BenchmarkRun F → Manager Map K F → Manager Map K F
  unfolding on_persisted
  on_finished time current w = on_persisted time w current (k.persist current w.sink)

  -- the rest of a round, for a run that has changed or not and has finished or not, and whether the
  -- loop goes on
  unfoldable pub on_written :
      (ℕ → ℕ)
      → Bytes
      → BenchmarkLifecycleEvent F
      → BenchmarkRun F
      → Bool
      → Bool
      → Manager Map K F
      → Manager Map K F × Bool
  unfolding announce on_finished
  on_written time run_id event current changed false w =
      (announce (time 1) event current changed w, true)
  on_written time run_id event current changed true w = (
    on_finished time current (
        announce (time 1) event current changed
          (record w { active_runs = m.remove w.active_runs run_id })),
    false,
  )

  -- a round of the loop, with the run before and after the event
  unfoldable pub on_applied :
      (ℕ → ℕ)
      → Bytes
      → BenchmarkLifecycleEvent F
      → Manager Map K F
      → ℕ
      → BenchmarkRun F
      → BenchmarkRun F
      → Manager Map K F × Bool
  unfolding on_written run_eq
  on_applied time run_id event w index before current =
      on_written time run_id event current (not (run_eq current before))
        (is_some current.finished_at) (record w { runs = set w.runs index current })

  unfoldable pub on_run :
      (ℕ → ℕ)
      → Bytes
      → BenchmarkLifecycleEvent F
      → Manager Map K F
      → ℕ
      → BenchmarkRun F
      → Manager Map K F × Bool
  unfolding apply_event on_applied
  on_run time run_id event w index before =
      on_applied time run_id event w index before (apply_event (time 0) event before)

  unfoldable pub on_found :
      (ℕ → ℕ)
      → Bytes
      → BenchmarkLifecycleEvent F
      → Manager Map K F
      → ℕ
      → Option (BenchmarkRun F)
      → Outcome (Manager Map K F × Bool)
  unfolding on_run
  on_found time run_id event w index none = panic
  on_found time run_id event w index (some run) = ret (on_run time run_id event w index run)

  unfoldable pub on_event :
      (ℕ → ℕ)
      → Bytes
      → BenchmarkLifecycleEvent F
      → Manager Map K F
      → Outcome (Manager Map K F × Bool)
  unfolding on_found
  on_event time run_id event w = elim (m.get w.active_runs run_id) [
    | none ↦ ret (w, false)
    | some active ↦
        on_found time run_id event w active.run_index (get_elem? w.runs active.run_index)
  ]

  -- the loop, over the events and the readings of the clock while each is handled
  unfoldable pub work :
      Bytes
      → List ((ℕ → ℕ) × BenchmarkLifecycleEvent F)
      → Manager Map K F
      → Outcome (Manager Map K F)
  work run_id [] w = ret w
  work run_id ((time, event) ∷ events) w = do
    (w', again) ← on_event time run_id event w
    elim again [ true ↦ work run_id events w' | false ↦ ret w' ]
