-- ===== src/Gui/Repository/Tests.antt =====
-- A store that can hold one list of runs.
use hybird_kv.Prelude.{
  ◌≡◌, refl, sym, ◌∙◌, ap, none, some, List, [], ◌∷◌, Bytes, bytes, bytes_eq, if◌then◌else◌,
}
use hybird_kv.Gui.Models.{Result, ok, err, BenchmarkRun}
use hybird_kv.Gui.Benchmarks.{find_run}
use hybird_kv.Gui.Repository.{
  Storage, upsert, persist, get_run, on_loaded, load_runs, on_read, on_contents, store_runs,
  on_payload,
}
use hybird_kv.Gui.Repository.Keeping.{persist-get_run}
use hybird_kv.Gui.Tests.{request}

abbrev old_run : BenchmarkRun Unit
old_run = record {
  id = bytes "run-1";
  request = request;
  status = bytes "running";
  created_at = bytes "1Z";
  started_at = some (bytes "1Z");
  finished_at = none;
  result = none;
  error_message = none;
}

abbrev new_run : BenchmarkRun Unit
new_run = record old_run { status = bytes "cancelled"; finished_at = some (bytes "2Z") }

-- A store that can hold two lists: the text is "1" for the first, and any other for the second.
module _ {F : Type 0} (before later : List (BenchmarkRun F)) where
  abbrev pub two_lists : Storage Bytes F
  unfolding bytes_eq
  two_lists = record {
    read_to_string = λ k. ok k;
    write = λ text k. (text, ok tt);
    write_backup = λ text k. (k, ok tt);
    to_string_pretty = λ runs. ok (bytes "2");
    from_str = λ text. some (if bytes_eq text (bytes "1") then before else later);
    sort_latest_first = λ runs. runs;
    Representable = λ runs. runs ≡ later;
    read-write = written;
    from_str-to_string_pretty = reread;
  }
    where
      written :
          (text k k' : Bytes)
          → ◌≡◌ {A = Bytes × Result Unit Bytes} (text, ok tt) (k', ok tt)
          → ◌≡◌ {A = Result Bytes Bytes} (ok k') (ok text)
      written text k k' e = ap (λ p. ok p.0) (sym e)

      text_of : Result Bytes Bytes → Bytes
      text_of (ok t) = t
      text_of (err t) = t

      reread :
          (runs : List (BenchmarkRun F)) (text : Bytes)
          → runs ≡ later
          → ◌≡◌ {A = Result Bytes Bytes} (ok (bytes "2")) (ok text)
          → some (if bytes_eq text (bytes "1") then before else later) ≡ some runs
      reread runs text r e =
          ap (λ t. some (if bytes_eq t (bytes "1") then before else later)) (sym (ap text_of e))
          ∙ ap some (sym r)

abbrev storage : Storage Bytes Unit
storage = two_lists (old_run ∷ []) (new_run ∷ [])

persist-get_run_example : get_run storage (bytes "run-1") (bytes "2") ≡ (
  bytes "2",
  ok (
      if bytes_eq new_run.id (bytes "run-1")
      then some new_run
      else find_run (bytes "run-1") (old_run ∷ [])),
)
unfolding bytes_eq upsert persist on_loaded load_runs on_read on_contents store_runs on_payload
persist-get_run_example =
    persist-get_run storage new_run (old_run ∷ []) (bytes "1") (bytes "2") (bytes "run-1")
      (record { contents = bytes "1"; readable = refl; parses = refl }) refl refl
