-- ===== src/Gui/Repository/Keeping.antt =====
-- What the store of hkv-gui/src-tauri/src/run_repository.rs keeps of the runs.
use hybird_kv.Prelude.{
  ◌≡◌, refl, some, List, [], ◌∷◌, Bytes, bytes_eq, bytes_eq_iff, if◌then◌else◌, arith,
}
use hybird_kv.Gui.Models.{Result, ok, err, BenchmarkRun}
use hybird_kv.Gui.Benchmarks.{find_run}
use hybird_kv.Gui.Repository.{
  Storage, upsert, on_payload, store_runs, on_contents, on_read, load_runs, on_loaded, persist,
  get_run,
}

module _ {F : Type 0} where
  find_run-upsert :
      (id : Bytes) (run : BenchmarkRun F) (runs : List (BenchmarkRun F))
      → find_run id (upsert run runs) ≡ (if bytes_eq run.id id then some run else find_run id runs)
  unfolding find_run upsert
  find_run-upsert id run [] = refl
  find_run-upsert id run (x ∷ runs) = ground (
    arith,
    find_run-upsert id run runs,
    bytes_eq_iff x.id run.id,
    bytes_eq_iff x.id id,
    bytes_eq_iff run.id id,
  )

module _ {K F : Type 0} (s : Storage K F) where
  -- The store holds these runs.
  pub record Holds (k : K) (runs : List (BenchmarkRun F)) : Type 0 where
    pub contents : Bytes
    pub readable : s.read_to_string k ≡ ok contents
    pub parses : s.from_str contents ≡ some runs

  load_runs-Holds :
      (k : K) (runs : List (BenchmarkRun F)) → Holds k runs → load_runs s k ≡ (k, ok runs)
  unfolding load_runs on_read on_contents
  load_runs-Holds k runs h = rw h.readable (rw h.parses)

  store_runs-Holds :
      (runs : List (BenchmarkRun F)) (k k' : K) (payload : Result Bytes Bytes)
      → s.Representable runs
      → s.to_string_pretty runs ≡ payload
      → on_payload s k payload ≡ (k', ok tt)
      → Holds k' runs
  unfolding on_payload
  store_runs-Holds runs k k' (err e) r t h = absurd (cc h)
  store_runs-Holds runs k k' (ok text) r t h = record {
    contents = text;
    readable = s.read-write text k k' h;
    parses = s.from_str-to_string_pretty runs text r t;
  }

  -- A run that has been persisted to a store of runs, all of which JSON can represent with it, is
  -- found again under its identifier, and so is every other run of the store that was found under
  -- another one; the store is then only read.
  pub persist-get_run :
      (run : BenchmarkRun F) (runs : List (BenchmarkRun F)) (k k' : K) (id : Bytes)
      → Holds k runs
      → s.Representable (upsert run runs)
      → persist s run k ≡ (k', ok tt)
      → get_run s id k' ≡ (k', ok (if bytes_eq run.id id then some run else find_run id runs))
  unfolding persist get_run on_loaded store_runs
  persist-get_run run runs k k' id h r p =
      let held : Holds k' (upsert run runs) =
        store_runs-Holds (upsert run runs) k k' (s.to_string_pretty (upsert run runs)) r refl
          (rw (load_runs-Holds k runs h) at p) in
      rw (load_runs-Holds k' (upsert run runs) held) (rw (find_run-upsert id run runs))
