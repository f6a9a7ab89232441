-- ===== src/Gui/Benchmarks/Finishing.antt =====
-- What the worker of hkv-gui/src-tauri/src/benchmark_manager.rs makes of the events of a run.
use hybird_kv.Prelude.{
  ℕ, zero, suc, ◌≡◌, refl, sym, ap, true, false, Option, none, some, List, [], ◌∷◌, Bytes, bytes,
  bytes_eq, bytes_eq_iff, get_elem?, set, arith,
}
use hybird_kv.Prelude.Float.{Float}
use hybird_kv.Gui.Models.{BenchmarkRun, BenchmarkRunRequest}
use hybird_kv.Gui.Runners.{BenchmarkLifecycleEvent, started, progress, completed, failed, cancelled}
use hybird_kv.Gui.Benchmarks.{
  get_or_insert, is_some, apply_event, find_run, update_run, run_eq, option_eq, request_eq,
}

abbrev pub Timed : Type 0 → Type 0
Timed F = (ℕ → ℕ) × BenchmarkLifecycleEvent F

pub started_same : (o : Option Bytes) (t : Bytes) → is_some o ≡ true → get_or_insert o t ≡ o
unfolding get_or_insert
started_same none t h = cc
started_same (some x) t h = refl

bytes_eq_self : (s : Bytes) → bytes_eq s s ≡ true
bytes_eq_self s = (bytes_eq_iff s s).1 refl

option_eq_self : (o : Option Bytes) → option_eq bytes_eq o o ≡ true
option_eq_self none = refl
option_eq_self (some s) = bytes_eq_self s

request_eq_self : (r : BenchmarkRunRequest) → request_eq r r ≡ true
request_eq_self r = ground (arith, bytes_eq_self r.runner, bytes_eq_self r.target_addr)

module _ {F : Type 0} where
  -- An event that does not end its run, and one that does.
  abbrev pub Quiet : List (Timed F) → Type 0
  Quiet [] = Unit
  Quiet ((_, started) ∷ es) = Quiet es
  Quiet ((_, progress _) ∷ es) = Quiet es
  Quiet _ = ⊥

  abbrev pub IsLast : BenchmarkLifecycleEvent F → Type 0
  IsLast started = ⊥
  IsLast (progress _) = ⊥
  IsLast _ = Unit

  -- The run at the index is the first one with the identifier.
  abbrev pub FirstAt : Bytes → List (BenchmarkRun F) → ℕ → Type 0
  FirstAt id [] i = ⊥
  FirstAt id (r ∷ rs) zero = bytes_eq r.id id ≡ true
  FirstAt id (r ∷ rs) (suc i) = (bytes_eq r.id id ≡ false) × FirstAt id rs i

  -- A run that its runner has not ended.
  pub record IsRunning (run : BenchmarkRun F) : Type 0 where
    pub status : run.status ≡ bytes "running"
    pub has_started : is_some run.started_at ≡ true
    pub unfinished : run.finished_at ≡ none
    pub no_result : run.result ≡ none

  pub set_same :
      (rs : List (BenchmarkRun F)) (i : ℕ) (r : BenchmarkRun F)
      → get_elem? rs i ≡ some r
      → set rs i r ≡ rs
  set_same [] i r e = refl
  set_same (x ∷ rs) zero r e = ap (λ y. y ∷ rs) (sym (cc e))
  set_same (x ∷ rs) (suc i) r e = ap (◌∷◌ x) (set_same rs i r e)

  pub find_run-set :
      (id : Bytes) (rs : List (BenchmarkRun F)) (i : ℕ) (r : BenchmarkRun F)
      → FirstAt id rs i
      → r.id ≡ id
      → find_run id (set rs i r) ≡ some r
  unfolding find_run
  find_run-set id [] i r h e = absurd h
  find_run-set id (x ∷ rs) zero r h e = rw ((bytes_eq_iff r.id id).1 e)
  find_run-set id (x ∷ rs) (suc i) r h e = rw h.0 (find_run-set id rs i r h.1 e)

  pub update_run-set :
      (id : Bytes) (change : BenchmarkRun F → BenchmarkRun F) (rs : List (BenchmarkRun F)) (i : ℕ)
      (r : BenchmarkRun F)
      → FirstAt id rs i
      → r.id ≡ id
      → update_run id change (set rs i r) ≡ set rs i (change r)
  unfolding update_run
  update_run-set id change [] i r h e = absurd h
  update_run-set id change (x ∷ rs) zero r h e = rw ((bytes_eq_iff r.id id).1 e)
  update_run-set id change (x ∷ rs) (suc i) r h e =
      rw h.0 (ap (◌∷◌ x) (update_run-set id change rs i r h.1 e))

  pub apply_event-started :
      (now : ℕ) (run : BenchmarkRun F) → IsRunning run → apply_event now started run ≡ run
  unfolding apply_event
  apply_event-started now run h =
      rw (started_same run.started_at _ h.has_started)
        (ap (λ s. record run { status = s }) (sym h.status))

  pub apply_event-progress :
      (now : ℕ) (message : Bytes) (run : BenchmarkRun F)
      → IsRunning run
      → apply_event now (progress message) run ≡ run
  unfolding apply_event
  apply_event-progress now message run h = ap (λ s. record run { status = s }) (sym h.status)

  -- What the end of a run leaves of it.
  pub apply_event-IsLast :
      (now : ℕ) (e : BenchmarkLifecycleEvent F) (run : BenchmarkRun F)
      → IsLast e
      → (is_some (apply_event now e run).finished_at ≡ true)
        × (bytes_eq (apply_event now e run).status (bytes "running") ≡ false)
        × ((apply_event now e run).id ≡ run.id)
  unfolding apply_event bytes_eq
  apply_event-IsLast now started run h = absurd h
  apply_event-IsLast now (progress _) run h = absurd h
  apply_event-IsLast now (completed _) run h = (refl, refl, refl)
  apply_event-IsLast now (failed _) run h = (refl, refl, refl)
  apply_event-IsLast now cancelled run h = (refl, refl, refl)

module _ {F : Type 0} ⦃f : Float F⦄ where
  pub run_eq_self : (run : BenchmarkRun F) → run.result ≡ none → run_eq run run ≡ true
  unfolding run_eq
  run_eq_self run h = rw (
    h,
    bytes_eq_self run.id,
    request_eq_self run.request,
    bytes_eq_self run.status,
    bytes_eq_self run.created_at,
    option_eq_self run.started_at,
    option_eq_self run.finished_at,
    option_eq_self run.error_message,
  )

  pub run_eq-status :
      (a b : BenchmarkRun F) → bytes_eq a.status b.status ≡ false → run_eq a b ≡ false
  unfolding run_eq
  run_eq-status a b h = ground arith
