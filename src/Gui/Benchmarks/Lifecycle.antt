-- ===== src/Gui/Benchmarks/Lifecycle.antt =====
-- The worker of hkv-gui/src-tauri/src/benchmark_manager.rs, up to the end of its run.
use hybird_kv.Prelude.{
  ℕ, ◌≡◌, refl, sym, ◌∙◌, ap, subst, true, false, some, List, [], ◌∷◌, ◌++◌, Bytes, bytes_eq,
  append_assoc, Outcome, ret, get_elem?, set,
}
use hybird_kv.Prelude.Float.{Float}
use hybird_kv.Gui.Models.{Result, ok, err, BenchmarkRun, BenchmarkEventEnvelope}
use hybird_kv.Gui.Runners.{BenchmarkLifecycleEvent, started, progress, completed, failed, cancelled}
use hybird_kv.Gui.Benchmarks.{ActiveRuns, Sink, Manager, is_some, apply_event, find_run, update_run}
use hybird_kv.Gui.Benchmarks.Worker.{
  persist_failure, on_failed_run, on_persisted, announce, on_finished, on_written, on_applied,
  on_run, on_found, on_event, work,
}
use hybird_kv.Gui.Benchmarks.Finishing.{
  Timed, Quiet, IsLast, FirstAt, IsRunning, set_same, find_run-set, update_run-set,
  apply_event-started, apply_event-progress, apply_event-IsLast, run_eq_self, run_eq-status,
}

module _ {Map K F : Type 0} ⦃m : ActiveRuns Map⦄ where
  -- The manager follows a run under its identifier, and the run is at the index.
  pub record Followed (w : Manager Map K F) (id : Bytes) (index : ℕ) (run : BenchmarkRun F)
      : Type 0 where
    pub handle : ℕ
    pub active : m.get w.active_runs id ≡ some (record { handle = handle; run_index = index })
    pub stored : get_elem? w.runs index ≡ some run
    pub named : run.id ≡ id
    pub first : FirstAt id w.runs index
    pub running : IsRunning run

-- The run after the store has taken it, or has refused it.
abbrev pub settled : {F : Type 0} → (ℕ → ℕ) → BenchmarkRun F → Result Unit Bytes → BenchmarkRun F
settled time run (ok _) = run
settled time run (err e) = persist_failure (time 2) e run

abbrev pub sent :
    {F : Type 0} → (ℕ → ℕ) → BenchmarkRun F → Result Unit Bytes → List (BenchmarkRun F)
sent time run (ok _) = run ∷ []
sent time run (err e) = run ∷ persist_failure (time 2) e run ∷ []

module _ {Map K F : Type 0} ⦃m : ActiveRuns Map⦄ ⦃k : Sink K F⦄ ⦃f : Float F⦄ where
  -- The worker ends: the run is the last event's, or failed if the store refuses it. It is stored
  -- once, sent, and active no more, and the other runs stay.
  pub record Done (w : Manager Map K F) (id : Bytes) (index : ℕ) (time : ℕ → ℕ)
      (run : BenchmarkRun F) (worked : Outcome (Manager Map K F)) : Type 0 where
    pub state : Manager Map K F
    pub returns : worked ≡ ret state
    pub inactive : state.active_runs ≡ m.remove w.active_runs id
    pub persisted : state.sink ≡ (k.persist run w.sink).0
    pub updated : state.runs ≡ set w.runs index (settled time run (k.persist run w.sink).1)
    pub announced : state.run_events ≡ w.run_events ++ sent time run (k.persist run w.sink).1

  module _ (id : Bytes) (index : ℕ) (run : BenchmarkRun F) (w : Manager Map K F)
      (h : Followed w id index run) where
    on_event-found :
        (time : ℕ → ℕ) (e : BenchmarkLifecycleEvent F)
        → on_event time id e w ≡ ret (on_run time id e w index run)
    unfolding on_event on_found
    on_event-found time e = rw (h.active, on_event) (rw h.stored)

    on_applied-same :
        (time : ℕ → ℕ) (e : BenchmarkLifecycleEvent F)
        → on_applied time id e w index run run ≡ (
          record w { lifecycle_events = (announce (time 1) e run false w).lifecycle_events },
          true,
        )
    unfolding on_applied on_written
    on_applied-same time e =
        rw (run_eq_self run h.running.no_result, set_same w.runs index run h.stored)
          (ap (λ b. on_written time id e run false b w) (ap is_some h.running.unfinished))

    -- an event that leaves the run as it is
    work-again :
        (time : ℕ → ℕ) (e : BenchmarkLifecycleEvent F) (es : List (Timed F))
        → apply_event (time 0) e run ≡ run
        → (ls : List BenchmarkEventEnvelope) × (work id ((time, e) ∷ es) w
            ≡ work id es (record w { lifecycle_events = ls }))
    unfolding work on_run
    work-again time e es q = (
      (announce (time 1) e run false w).lifecycle_events,
      rw (on_event-found time e)
          (rw (ap (on_applied time id e w index run) q ∙ on_applied-same time e)),
    )

    ended : (ℕ → ℕ) → BenchmarkLifecycleEvent F → Manager Map K F
    ended time e =
        let run' = apply_event (time 0) e run in
        announce (time 1) e run' true
          (record w { runs = set w.runs index run'; active_runs = m.remove w.active_runs id })

    on_run-last :
        (time : ℕ → ℕ) (e : BenchmarkLifecycleEvent F)
        → IsLast e
        → on_run time id e w index run
          ≡ (on_finished time (apply_event (time 0) e run) (ended time e), false)
    unfolding on_run ended on_applied on_written
    on_run-last time e l =
        let (fin, st, _) = apply_event-IsLast (time 0) e run l in
        rw fin (
          rw (
            run_eq-status (apply_event (time 0) e run) run (
              subst (λ t. bytes_eq (apply_event (time 0) e run).status t ≡ false)
                (sym h.running.status) st)))

    on_finished-Done :
        (time : ℕ → ℕ) (e : BenchmarkLifecycleEvent F) (p : K × Result Unit Bytes)
        → k.persist (apply_event (time 0) e run) w.sink ≡ p
        → IsLast e
        → Done w id index time
            (apply_event (time 0) e run)
            (ret (on_persisted time (ended time e) (apply_event (time 0) e run) p))
    unfolding ended announce on_persisted on_failed_run
    on_finished-Done time e (sink, ok _) q l = record {
      state = _;
      returns = refl;
      inactive = refl;
      persisted = rw q;
      updated = rw q;
      announced = rw q;
    }
    on_finished-Done time e (sink, err error) q l =
        let run' = apply_event (time 0) e run in
        let same : run'.id ≡ id = (apply_event-IsLast (time 0) e run l).2 ∙ h.named in
        let found : find_run run'.id (set w.runs index run') ≡ some run' =
          subst (λ i. find_run i (set w.runs index run') ≡ some run') (sym same)
            (find_run-set id w.runs index run' h.first same) in
        let change = persist_failure (time 2) error in
        let updated : update_run run'.id change (set w.runs index run')
            ≡ set w.runs index (change run') =
          subst (λ i. update_run i change (set w.runs index run') ≡ set w.runs index (change run'))
            (sym same) (update_run-set id change w.runs index run' h.first same) in
        record {
          state = on_failed_run time error (record (ended time e) { sink = sink }) (some run');
          returns = rw found;
          inactive = refl;
          persisted = rw q;
          updated = rw q updated;
          announced = rw q (append_assoc w.run_events (run' ∷ []) (change run' ∷ []));
        }

moved :
    {Map K F : Type 0} ⦃m : ActiveRuns Map⦄ (w : Manager Map K F) (ls : List BenchmarkEventEnvelope)
    (id : Bytes) (index : ℕ) (run : BenchmarkRun F)
    → Followed w id index run
    → Followed (record w { lifecycle_events = ls }) id index run
moved w ls id index run h = record {
  handle = h.handle;
  active = h.active;
  stored = h.stored;
  named = h.named;
  first = h.first;
  running = h.running;
}

pub work-Done :
    {Map K F : Type 0} ⦃m : ActiveRuns Map⦄ ⦃k : Sink K F⦄ ⦃f : Float F⦄ (id : Bytes) (index : ℕ)
    (run : BenchmarkRun F) (early : List (Timed F)) (time : ℕ → ℕ) (e : BenchmarkLifecycleEvent F)
    (late : List (Timed F)) (w : Manager Map K F)
    → Followed w id index run
    → Quiet early
    → IsLast e
    → Done w id index time (apply_event (time 0) e run) (work id (early ++ (time, e) ∷ late) w)
unfolding work on_finished on_persisted ended announce
work-Done id index run [] time e late w h q l =
    rw (on_event-found id index run w h time e) (
      rw (on_run-last id index run w h time e l)
        (on_finished-Done id index run w h time e _ refl l))
work-Done id index run ((t, started) ∷ early) time e late w h q l =
    let (ls, again) =
      work-again id index run w h t started (early ++ (time, e) ∷ late)
        (apply_event-started (t 0) run h.running) in
    let ih =
      work-Done id index run early time e late (record w { lifecycle_events = ls })
        (moved w ls id index run h) q l in
    rw again (record {
      state = ih.state;
      returns = ih.returns;
      inactive = ih.inactive;
      persisted = ih.persisted;
      updated = ih.updated;
      announced = ih.announced;
    })
work-Done id index run ((t, progress message) ∷ early) time e late w h q l =
    let (ls, again) =
      work-again id index run w h t (progress message) (early ++ (time, e) ∷ late)
        (apply_event-progress (t 0) message run h.running) in
    let ih =
      work-Done id index run early time e late (record w { lifecycle_events = ls })
        (moved w ls id index run h) q l in
    rw again (record {
      state = ih.state;
      returns = ih.returns;
      inactive = ih.inactive;
      persisted = ih.persisted;
      updated = ih.updated;
      announced = ih.announced;
    })
work-Done id index run ((t, completed _) ∷ early) time e late w h q l = absurd q
work-Done id index run ((t, failed _) ∷ early) time e late w h q l = absurd q
work-Done id index run ((t, cancelled) ∷ early) time e late w h q l = absurd q
