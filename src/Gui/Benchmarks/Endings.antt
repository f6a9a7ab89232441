-- ===== src/Gui/Benchmarks/Endings.antt =====
-- What the end of a run of hkv-gui/src-tauri/src/benchmark_manager.rs leaves of it, field by field.
use hybird_kv.Prelude.{
  ℕ, ◌/◌, ◌≡◌, refl, ap, ◌∙◌, true, Option, some, List, [], ◌∷◌, ◌++◌, Bytes, bytes, Outcome, ret,
  set,
}
use hybird_kv.Prelude.Float.{Float}
use hybird_kv.Common.Numbers.{show}
use hybird_kv.Gui.Models.{Result, ok, err, BenchmarkRun}
use hybird_kv.Gui.Runners.{BenchmarkLifecycleEvent, started, progress, completed, failed, cancelled}
use hybird_kv.Gui.Benchmarks.{ActiveRuns, Sink, Manager, iso_timestamp, is_some, apply_event}
use hybird_kv.Gui.Benchmarks.Worker.{persist_failure}
use hybird_kv.Gui.Benchmarks.Finishing.{IsLast, started_same, apply_event-IsLast}
use hybird_kv.Gui.Benchmarks.Lifecycle.{Done, settled, sent}

-- The time in seconds, as it is shown.
abbrev in_seconds : ℕ → Option Bytes
in_seconds now = some (show (now / 1000) ++ bytes "Z")

module _ {F : Type 0} where
  -- The same run, that has ended at the time.
  pub record Continues (end : Option Bytes) (run after : BenchmarkRun F) : Type 0 where
    pub id : after.id ≡ run.id
    pub request : after.request ≡ run.request
    pub created_at : after.created_at ≡ run.created_at
    pub started_at : after.started_at ≡ run.started_at
    pub finished_at : after.finished_at ≡ end

  -- The status, the result and the message that each event gives to the run that it ends.
  abbrev pub Verdict : BenchmarkLifecycleEvent F → BenchmarkRun F → BenchmarkRun F → Type 0
  Verdict started run after = ⊥
  Verdict (progress _) run after = ⊥
  Verdict (completed result) run after =
      (after.status ≡ bytes "completed")
      × (after.result ≡ some result)
      × (after.error_message ≡ run.error_message)
  Verdict (failed message) run after =
      (after.status ≡ bytes "failed")
      × (after.result ≡ run.result)
      × (after.error_message ≡ some message)
  Verdict cancelled run after =
      (after.status ≡ bytes "cancelled")
      × (after.result ≡ run.result)
      × (after.error_message ≡ run.error_message)

  apply_event-Continues :
      (now : ℕ) (e : BenchmarkLifecycleEvent F) (run : BenchmarkRun F)
      → IsLast e
      → Continues (in_seconds now) run (apply_event now e run)
  unfolding apply_event iso_timestamp
  apply_event-Continues now started run h = absurd h
  apply_event-Continues now (progress _) run h = absurd h
  apply_event-Continues now (completed _) run h = record {
    id = refl;
    request = refl;
    created_at = refl;
    started_at = refl;
    finished_at = refl;
  }
  apply_event-Continues now (failed _) run h = record {
    id = refl;
    request = refl;
    created_at = refl;
    started_at = refl;
    finished_at = refl;
  }
  apply_event-Continues now cancelled run h = record {
    id = refl;
    request = refl;
    created_at = refl;
    started_at = refl;
    finished_at = refl;
  }

  apply_event-Verdict :
      (now : ℕ) (e : BenchmarkLifecycleEvent F) (run : BenchmarkRun F)
      → IsLast e
      → Verdict e run (apply_event now e run)
  unfolding apply_event
  apply_event-Verdict now started run h = absurd h
  apply_event-Verdict now (progress _) run h = absurd h
  apply_event-Verdict now (completed _) run h = (refl, refl, refl)
  apply_event-Verdict now (failed _) run h = (refl, refl, refl)
  apply_event-Verdict now cancelled run h = (refl, refl, refl)

  -- The run after the answer of the store.
  abbrev pub Settled : Result Unit Bytes → BenchmarkRun F → BenchmarkRun F → Type 0
  Settled (ok _) run after = after ≡ run
  Settled (err error) run after =
      Continues run.finished_at run after
      × (after.status ≡ bytes "failed")
      × (after.result ≡ run.result)
      × (after.error_message ≡ some (bytes "failed to persist run: " ++ error))

  -- What is sent of the run, by the answer of the store.
  abbrev pub announcing :
      Result Unit Bytes → BenchmarkRun F → BenchmarkRun F → List (BenchmarkRun F)
  announcing (ok _) run after = run ∷ []
  announcing (err _) run after = run ∷ after ∷ []

  settled-Settled :
      (time : ℕ → ℕ) (run : BenchmarkRun F) (answer : Result Unit Bytes)
      → is_some run.finished_at ≡ true
      → Settled answer run (settled time run answer)
  unfolding persist_failure
  settled-Settled time run (ok _) h = refl
  settled-Settled time run (err error) h = (
    record {
      id = refl;
      request = refl;
      created_at = refl;
      started_at = refl;
      finished_at = started_same run.finished_at _ h;
    },
    refl,
    refl,
    refl,
  )

  sent-announcing :
      (time : ℕ → ℕ) (run : BenchmarkRun F) (answer : Result Unit Bytes)
      → sent time run answer ≡ announcing answer run (settled time run answer)
  sent-announcing time run (ok _) = refl
  sent-announcing time run (err error) = refl

module _ {Map K F : Type 0} ⦃m : ActiveRuns Map⦄ ⦃k : Sink K F⦄ ⦃f : Float F⦄ where
  -- The worker of a run has ended with an event: the run has the verdict of the event, and then
  -- that of the store, which is asked once; it is announced, and active no more, and the other runs
  -- stay.
  pub record Ended (w : Manager Map K F) (id : Bytes) (index : ℕ) (time : ℕ → ℕ)
      (e : BenchmarkLifecycleEvent F) (run : BenchmarkRun F) (worked : Outcome (Manager Map K F))
      : Type 0 where
    pub state : Manager Map K F
    pub after : BenchmarkRun F
    pub final : BenchmarkRun F
    pub returns : worked ≡ ret state
    pub inactive : state.active_runs ≡ m.remove w.active_runs id
    pub continues : Continues (in_seconds (time 0)) run after
    pub verdict : Verdict e run after
    pub persisted : state.sink ≡ (k.persist after w.sink).0
    pub settles : Settled (k.persist after w.sink).1 after final
    pub updated : state.runs ≡ set w.runs index final
    pub announced :
        state.run_events ≡ w.run_events ++ announcing (k.persist after w.sink).1 after final

  pub Done-Ended :
      (w : Manager Map K F) (id : Bytes) (index : ℕ) (time : ℕ → ℕ) (e : BenchmarkLifecycleEvent F)
      (run : BenchmarkRun F) (worked : Outcome (Manager Map K F))
      → IsLast e
      → Done w id index time (apply_event (time 0) e run) worked
      → Ended w id index time e run worked
  Done-Ended w id index time e run worked l d =
      let after : BenchmarkRun F = apply_event (time 0) e run in
      let answer : Result Unit Bytes = (k.persist after w.sink).1 in
      record {
        state = d.state;
        after = after;
        final = settled time after answer;
        returns = d.returns;
        inactive = d.inactive;
        continues = apply_event-Continues (time 0) e run l;
        verdict = apply_event-Verdict (time 0) e run l;
        persisted = d.persisted;
        settles = settled-Settled time after answer (apply_event-IsLast (time 0) e run l).0;
        updated = d.updated;
        announced = d.announced ∙ ap (◌++◌ w.run_events) (sent-announcing time after answer);
      }
