-- ===== src/Gui/Repository.antt =====
-- hkv-gui/src-tauri/src/run_repository.rs: `RunRepository`. The file system and the JSON library
-- are an interface; `K` is the state of the directory.
pub mod Keeping
mod Tests
use hybird_kv.Prelude.{Option, none, some, List, [], ◌∷◌, map, ◌≡◌, Bytes, bytes_eq, if◌then◌else◌}
use hybird_kv.Gui.Models.{Result, ok, err, BenchmarkRun, NormalizedRunSummary}
use hybird_kv.Gui.Benchmarks.{find_run, normalize_run, Sink}

-- What is relied on: a text that was written to the store file is read back, also after a copy to a
-- backup file, and a list of runs whose numbers JSON can represent is read back from its text.
pub record Storage (K F : Type 0) : Type 1 where
  pub read_to_string : K → Result Bytes Bytes
  pub write : Bytes → K → K × Result Unit Bytes
  pub write_backup : Bytes → K → K × Result Unit Bytes
  pub to_string_pretty : List (BenchmarkRun F) → Result Bytes Bytes
  pub from_str : Bytes → Option (List (BenchmarkRun F))
  -- `sort_by`, by `created_at` from the latest on
  pub sort_latest_first : List (BenchmarkRun F) → List (BenchmarkRun F)
  pub Representable : List (BenchmarkRun F) → Type 0
  pub read-write :
      (text : Bytes) (k k' : K) → write text k ≡ (k', ok tt) → read_to_string k' ≡ ok text
  pub from_str-to_string_pretty :
      (runs : List (BenchmarkRun F)) (text : Bytes)
      → Representable runs
      → to_string_pretty runs ≡ ok text
      → from_str text ≡ some runs

module _ {F : Type 0} where
  -- the run in place of the first one with its identifier, or at the end
  unfoldable pub upsert : BenchmarkRun F → List (BenchmarkRun F) → List (BenchmarkRun F)
  upsert run [] = run ∷ []
  upsert run (existing ∷ runs) =
      let rest = upsert run runs in
      if bytes_eq existing.id run.id then run ∷ runs else existing ∷ rest

module _ {K F : Type 0} (s : Storage K F) where
  open s use {read_to_string, write, write_backup, to_string_pretty, from_str, sort_latest_first}

  unfoldable pub on_payload : K → Result Bytes Bytes → K × Result Unit Bytes
  on_payload k (err e) = (k, err e)
  on_payload k (ok payload) = write payload k

  unfoldable pub store_runs : List (BenchmarkRun F) → K → K × Result Unit Bytes
  unfolding on_payload
  store_runs runs k = on_payload k (to_string_pretty runs)

  unfoldable pub on_emptied : K × Result Unit Bytes → K × Result (List (BenchmarkRun F)) Bytes
  on_emptied (k, err e) = (k, err e)
  on_emptied (k, ok _) = (k, ok [])

  unfoldable pub on_backup : K × Result Unit Bytes → K × Result (List (BenchmarkRun F)) Bytes
  unfolding on_emptied store_runs
  on_backup (k, err e) = (k, err e)
  on_backup (k, ok _) = on_emptied (store_runs [] k)

  -- `load_runs`, with what `from_str` makes of the contents
  unfoldable pub on_contents :
      Bytes → K → Option (List (BenchmarkRun F)) → K × Result (List (BenchmarkRun F)) Bytes
  unfolding on_backup
  on_contents contents k (some runs) = (k, ok runs)
  on_contents contents k none = on_backup (write_backup contents k)

  unfoldable pub on_read : K → Result Bytes Bytes → K × Result (List (BenchmarkRun F)) Bytes
  unfolding on_contents
  on_read k (err e) = (k, err e)
  on_read k (ok contents) = on_contents contents k (from_str contents)

  unfoldable pub load_runs : K → K × Result (List (BenchmarkRun F)) Bytes
  unfolding on_read
  load_runs k = on_read k (read_to_string k)

  unfoldable pub on_loaded :
      BenchmarkRun F → K × Result (List (BenchmarkRun F)) Bytes → K × Result Unit Bytes
  unfolding store_runs upsert
  on_loaded run (k, err e) = (k, err e)
  on_loaded run (k, ok runs) = store_runs (upsert run runs) k

  unfoldable pub persist : BenchmarkRun F → K → K × Result Unit Bytes
  unfolding on_loaded load_runs
  persist run k = on_loaded run (load_runs k)

  unfoldable pub get_run : Bytes → K → K × Result (Option (BenchmarkRun F)) Bytes
  unfolding load_runs find_run
  get_run run_id k =
      let (k', loaded) = load_runs k in
      (k', elim loaded [ err e ↦ err e | ok runs ↦ ok (find_run run_id runs) ])

  unfoldable pub list_runs : K → K × Result (List (NormalizedRunSummary F)) Bytes
  unfolding load_runs normalize_run
  list_runs k =
      let (k', loaded) = load_runs k in
      (
        k',
        elim loaded [ err e ↦ err e | ok runs ↦ ok (map normalize_run (sort_latest_first runs)) ],
      )

  -- `impl BenchmarkRunSink for RunRepository`
  unfoldable pub repository_sink : Sink K F
  unfolding persist
  repository_sink = record { persist = persist }
