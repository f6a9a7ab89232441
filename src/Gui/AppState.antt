-- ===== src/Gui/AppState.antt =====
-- hkv-gui/src-tauri/src/state.rs: the methods of `AppState` that combine the server's manager with
-- the poller, and the manager of benchmarks with the store of runs.
use hybird_kv.Prelude.{
  ℕ, ◌++◌, Option, none, some, List, [], ◌∷◌, Bytes, bytes, bytes_eq, if◌then◌else◌,
}
use hybird_kv.Prelude.Float.{Float}
use hybird_kv.Gui.Models.{
  Result, ok, err, ServerStatus, InfoSnapshot, BenchmarkRun, NormalizedRunSummary,
}
use hybird_kv.Gui.Manager.{Os, World, ManagerState, Run}
use hybird_kv.Gui.Manager
use hybird_kv.Gui.InfoPoller.{PollerState, PollError, poll, clear}
use hybird_kv.Gui.Benchmarks
use hybird_kv.Gui.Benchmarks.Methods
use hybird_kv.Gui.Repository.{Storage}
use hybird_kv.Gui.Repository

-- the calls made, the two states, and the result
abbrev pub AppRun : Type 0 → Type 0
AppRun A = World × ManagerState × PollerState × A

-- `stop_server`, with the result of the manager
unfoldable pub on_stopped :
    PollerState → Run (Result ServerStatus Bytes) → AppRun (Result ServerStatus Bytes)
unfolding clear
on_stopped p (w, s, err e) = (w, s, p, err e)
on_stopped p (w, s, ok status) = (w, s, clear p, ok status)

-- the status with the error of the poller, in the words of `words`, in place of the manager's
unfoldable pub with_poll_error :
    (PollError → Bytes) → Option PollError → ServerStatus → ServerStatus
with_poll_error words none status = status
with_poll_error words (some e) status = record status { last_error = some (words e) }

-- `.ok()`
unfoldable pub on_polled :
    PollerState × Result InfoSnapshot PollError → PollerState × Option InfoSnapshot
on_polled (p, ok snapshot) = (p, some snapshot)
on_polled (p, err _) = (p, none)

module _ (os : Os) where
  unfoldable pub stop_server :
      ManagerState → PollerState → World → AppRun (Result ServerStatus Bytes)
  unfolding on_stopped Manager.stop
  stop_server s p w = on_stopped p (Manager.stop os s w)

  unfoldable pub server_status :
      (PollError → Bytes) → ManagerState → PollerState → World → AppRun ServerStatus
  unfolding with_poll_error Manager.status
  server_status words s p w =
      let (w', s', status) = Manager.status os s w in
      (w', s', p, with_poll_error words p.last_error status)

  module _ (F : Type 0) ⦃f : Float F⦄ where
    unfoldable pub info_snapshot :
        (Bytes → Result (Result Bytes Bytes) Bytes)
        → ℕ
        → ManagerState
        → PollerState
        → World
        → AppRun (Option InfoSnapshot)
    unfolding on_polled poll Manager.status
    info_snapshot client now s p w =
        let (w', s', status) = Manager.status os s w in
        if bytes_eq status.state (bytes "running")
        then (let (p', snapshot) = on_polled (poll F now p (client status.address)) in
            (w', s', p', snapshot))
        else (w', s', p, p.last_snapshot)

module _ {F : Type 0} where
  -- the loop of `list_runs`: a run of the manager takes the place of the stored one
  unfoldable pub overlay :
      NormalizedRunSummary F → List (NormalizedRunSummary F) → List (NormalizedRunSummary F)
  overlay run [] = run ∷ []
  overlay run (existing ∷ runs) =
      let rest = overlay run runs in
      if bytes_eq existing.id run.id then run ∷ runs else existing ∷ rest

  unfoldable pub overlay_all :
      List (NormalizedRunSummary F) → List (NormalizedRunSummary F) → List (NormalizedRunSummary F)
  overlay_all [] runs = runs
  overlay_all (run ∷ rest) runs = overlay_all rest (overlay run runs)

  unfoldable pub unwrap_or_default :
      Result (List (NormalizedRunSummary F)) Bytes → List (NormalizedRunSummary F)
  unwrap_or_default (ok runs) = runs
  unwrap_or_default (err _) = []

module _ {Map K F : Type 0} (st : Storage K F)
    (sort_summaries : List (NormalizedRunSummary F) → List (NormalizedRunSummary F)) where
  unfoldable pub list_runs : Benchmarks.Manager Map K F → K × List (NormalizedRunSummary F)
  unfolding overlay_all unwrap_or_default Repository.list_runs Methods.list_runs
  list_runs b =
      let (k, stored) = Repository.list_runs st b.sink in
      (k, sort_summaries (overlay_all (Methods.list_runs b) (unwrap_or_default stored)))

-- what the store answers, for a run that the manager does not have
unfoldable pub on_stored :
    {K F : Type 0}
    → Bytes
    → K × Result (Option (BenchmarkRun F)) Bytes
    → K × Result (BenchmarkRun F) Bytes
on_stored run_id (k, err e) = (k, err e)
on_stored run_id (k, ok none) =
    (k, err (bytes "benchmark run '" ++ run_id ++ bytes "' was not found"))
on_stored run_id (k, ok (some run)) = (k, ok run)

module _ {Map K F : Type 0} (st : Storage K F) where
  unfoldable pub get_run_detail :
      Benchmarks.Manager Map K F → Bytes → K × Result (BenchmarkRun F) Bytes
  unfolding on_stored Methods.get_run Repository.get_run
  get_run_detail b run_id = elim (Methods.get_run b run_id) [
    | some run ↦ (b.sink, ok run)
    | none ↦ on_stored run_id (Repository.get_run st run_id b.sink)
  ]
