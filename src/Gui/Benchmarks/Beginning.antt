-- ===== src/Gui/Benchmarks/Beginning.antt =====
-- A run of hkv-gui/src-tauri/src/benchmark_manager.rs from its start to its end.
use hybird_kv.Prelude.{
  ℕ, ◌≡◌, refl, subst, Option, none, some, List, [], ◌∷◌, ◌++◌, Bytes, bytes_eq, bytes_eq_iff,
  length, Bool-cases, inl, inr, get_elem?,
}
use hybird_kv.Prelude.Float.{Float}
use hybird_kv.Gui.Models.{Result, ok, err, BenchmarkRun, BenchmarkRunRequest, validate}
use hybird_kv.Gui.Runners.{BenchmarkLifecycleEvent, RunnerError, Runner, select_runner}
use hybird_kv.Gui.Benchmarks.Methods.{new_run, on_handle, on_runner, on_valid, start}
use hybird_kv.Gui.Benchmarks.{next_run_id, ActiveRuns, Sink, Manager, find_run}
use hybird_kv.Gui.Benchmarks.Worker.{work}
use hybird_kv.Gui.Benchmarks.Lifecycle.{Followed, work-Done}
use hybird_kv.Gui.Benchmarks.Endings.{Ended, Done-Ended}
use hybird_kv.Gui.Benchmarks.Finishing.{Timed, Quiet, IsLast, FirstAt}

append_at :
    {F : Type 0} (id : Bytes) (rs : List (BenchmarkRun F)) (r : BenchmarkRun F)
    → find_run id rs ≡ none
    → r.id ≡ id
    → (get_elem? (rs ++ r ∷ []) (length rs) ≡ some r) × FirstAt id (rs ++ r ∷ []) (length rs)
unfolding find_run
append_at id [] r n e = (refl, (bytes_eq_iff r.id id).1 e)
append_at id (x ∷ rs) r n e = elim (Bool-cases (bytes_eq x.id id)) [
  | inl same ↦ absurd (cc (rw same at n))
  | inr other ↦ let (a, b) = append_at id rs r (rw other at n) e in (a, (other, b))
]

module _ {Map K F : Type 0} ⦃m : ActiveRuns Map⦄ (time : ℕ → ℕ) (request : BenchmarkRunRequest)
    (w : Manager Map K F) (run : BenchmarkRun F)
    (fresh : find_run (next_run_id (time 0)) w.runs ≡ none) where
  on_handle-Followed :
      (r : Result ℕ RunnerError)
      → (on_handle time request w r).1 ≡ ok run
      → Followed (on_handle time request w r).0 run.id (length w.runs) run
  unfolding on_handle new_run
  on_handle-Followed (err e) h = absurd (cc h)
  on_handle-Followed (ok handle) h =
      let made : new_run time request ≡ run = cc h in
      subst (λ r. Followed (on_handle time request w (ok handle)).0 r.id (length w.runs) r) made
        (record {
          handle = handle;
          active = rw (
            m.get-insert w.active_runs (next_run_id (time 0)) _ (next_run_id (time 0)),
            (bytes_eq_iff (next_run_id (time 0)) (next_run_id (time 0))).1 refl,
          );
          stored = (append_at _ w.runs (new_run time request) fresh refl).0;
          named = refl;
          first = (append_at _ w.runs (new_run time request) fresh refl).1;
          running = record {
            status = refl;
            has_started = refl;
            unfinished = refl;
            no_result = refl;
          };
        })

  on_runner-Followed :
      (r : Result Runner RunnerError)
      → (on_runner time request w r).1 ≡ ok run
      → Followed (on_runner time request w r).0 run.id (length w.runs) run
  unfolding on_runner
  on_runner-Followed (err e) h = absurd (cc h)
  on_runner-Followed (ok runner) h = on_handle-Followed (runner.start request) h

  on_valid-Followed :
      (file_name : Bytes → Option Bytes) (runners : List Runner) (r : Result Unit Bytes)
      → (on_valid file_name runners time request w r).1 ≡ ok run
      → Followed (on_valid file_name runners time request w r).0 run.id (length w.runs) run
  unfolding on_valid
  on_valid-Followed file_name runners (err message) h = absurd (cc h)
  on_valid-Followed file_name runners (ok _) h =
      on_runner-Followed (select_runner file_name runners request.runner) h

  start-Followed :
      (file_name : Bytes → Option Bytes) (runners : List Runner)
      → (start file_name runners time request w).1 ≡ ok run
      → Followed (start file_name runners time request w).0 run.id (length w.runs) run
  unfolding start
  start-Followed file_name runners h = on_valid-Followed file_name runners (validate request) h

-- A run that `start` returns, under an identifier that no run had, and whose channel brings some
-- events that do not end it, then one that does, and any others after it: the worker ends without a
-- panic at the first that ends it. The run then has the status "completed" with the event's result,
-- "failed" with its message, or "cancelled", and the time as its end, all else as it was. It is
-- handed to the store once; if that refuses it, it has the status "failed" and a message with the
-- store's error. It is sent as it is before the answer of the store and, if that refuses it, as it
-- is then too. It is active no more, and the other runs are as they were.
pub start-work :
    {Map K F : Type 0} ⦃m : ActiveRuns Map⦄ ⦃k : Sink K F⦄ ⦃f : Float F⦄
    (file_name : Bytes → Option Bytes) (runners : List Runner) (begun time : ℕ → ℕ)
    (request : BenchmarkRunRequest) (w : Manager Map K F) (run : BenchmarkRun F)
    (early late : List (Timed F)) (e : BenchmarkLifecycleEvent F)
    → find_run (next_run_id (begun 0)) w.runs ≡ none
    → (start file_name runners begun request w).1 ≡ ok run
    → Quiet early
    → IsLast e
    → Ended
        (start file_name runners begun request w).0
        run.id
        (length w.runs)
        time
        e
        run
        (work run.id (early ++ (time, e) ∷ late) (start file_name runners begun request w).0)
start-work file_name runners begun time request w run early late e fresh h q l =
    Done-Ended _ run.id (length w.runs) time e run _ l (
      work-Done run.id (length w.runs) run early time e late _
        (start-Followed begun request w run fresh file_name runners h) q l)
