-- ===== src/Gui/RedisBenchmark/Output.antt =====
-- hkv-gui/src-tauri/src/runners/redis_benchmark.rs: `parse_output`.
use hybird_kv.Prelude.{
  ℕ, ◌-◌, ◌^◌, ◌&&◌, ◌||◌, Bool, Option, none, some, List, [], ◌∷◌, ◌++◌, Bytes, bytes, ◌==◌,
  if◌then◌else◌,
}
use hybird_kv.Prelude.Float.{Float}
use hybird_kv.Common.Numbers.{parse_uint}
use hybird_kv.Wire.Parser.{starts_with}
use hybird_kv.Gui.Text.{
  is_empty, trim, lines, contains, split, split_whitespace, strip_prefix, trim_matches, replace,
}
use hybird_kv.Gui.Models.{Result, ok, err, ◌>>=◌, BenchmarkResult}
use hybird_kv.Gui.Runners.{RunnerError}

abbrev pub parse_failed : Bytes → RunnerError
parse_failed message = record { code = bytes "parse_failed"; message = message }

-- the value, or an error with the message
unfoldable pub ok_or : {A : Type 0} → Bytes → Option A → Result A RunnerError
ok_or message none = err (parse_failed message)
ok_or message (some a) = ok a

-- `find_map` over the segments
unfoldable pub find_value : Bytes → List Bytes → Option Bytes
find_value prefix [] = none
find_value prefix (s ∷ ss) =
    let rest = find_value prefix ss in
    elim (strip_prefix prefix s) [ some value ↦ some value | none ↦ rest ]

abbrev pub comma_or_quote : ℕ → Bool
comma_or_quote c = c == b',' || c == 34

unfoldable pub parse_key_value_segment : Bytes → Bytes → Result Bytes RunnerError
unfolding ok_or find_value
parse_key_value_segment line key =
    ok_or (bytes "missing " ++ key ++ bytes " in '" ++ line ++ bytes "'")
      (find_value (key ++ bytes "=") (split_whitespace (replace comma_or_quote 32 line)))

unfoldable pub parse_key_value_u64 : Bytes → Bytes → Result ℕ RunnerError
unfolding ok_or parse_key_value_segment
parse_key_value_u64 line key = do
  value ← parse_key_value_segment line key
  ok_or (bytes "failed to parse " ++ key ++ bytes " from '" ++ line ++ bytes "'")
      (parse_uint (2 ^ 64 - 1) value)

-- the variables of the loop
pub record Metrics (F : Type 0) : Type 0 where
  pub throughput_ops_per_sec : Option F
  pub total_requests : Option ℕ
  pub dataset_bytes : Option ℕ
  pub duration_ms : Option ℕ
  pub average_latency_ms : Option F
  pub p50_latency_ms : Option F
  pub p95_latency_ms : Option F
  pub p99_latency_ms : Option F

module _ {F : Type 0} ⦃f : Float F⦄ where
  unfoldable pub parse_csv_number : Bytes → Result F RunnerError
  unfolding ok_or
  parse_csv_number segment =
      ok_or (bytes "failed to parse redis-benchmark throughput from '" ++ segment ++ bytes "'")
        (f.parse (trim_matches 34 segment))

  unfoldable pub parse_key_value_number : Bytes → Bytes → Result F RunnerError
  unfolding ok_or parse_key_value_segment
  parse_key_value_number line key = do
    value ← parse_key_value_segment line key
    ok_or (bytes "failed to parse " ++ key ++ bytes " from '" ++ line ++ bytes "'") (f.parse value)

  -- the second of the segments of a line, if there is one
  unfoldable pub on_segments : Metrics F → List Bytes → Result (Metrics F) RunnerError
  unfolding parse_csv_number
  on_segments s (_ ∷ segment ∷ _) = do
    x ← parse_csv_number segment
    ok (record s { throughput_ops_per_sec = some x })
  on_segments s _ = ok s

  unfoldable pub on_throughput : Bytes → Metrics F → Result (Metrics F) RunnerError
  unfolding on_segments
  on_throughput line s =
      if starts_with 34 line && contains (bytes "PING_INLINE") line
      then on_segments s (split (λ c. c == b',') line)
      else ok s

  unfoldable pub on_latency : Bytes → Metrics F → Result (Metrics F) RunnerError
  unfolding parse_key_value_number
  on_latency line s =
      if contains (bytes "latency summary") line
      then (do
        p50 ← parse_key_value_number line (bytes "p50")
        p95 ← parse_key_value_number line (bytes "p95")
        p99 ← parse_key_value_number line (bytes "p99")
        ok (record s {
          p50_latency_ms = some p50;
          p95_latency_ms = some p95;
          p99_latency_ms = some p99;
        }))
      else ok s

  unfoldable pub on_requests : Bytes → Metrics F → Result (Metrics F) RunnerError
  unfolding parse_key_value_u64 parse_key_value_number
  on_requests line s =
      if contains (bytes "requests summary") line
      then (do
        requests ← parse_key_value_u64 line (bytes "requests")
        size ← parse_key_value_u64 line (bytes "bytes")
        duration ← parse_key_value_u64 line (bytes "duration_ms")
        average ← parse_key_value_number line (bytes "avg_ms")
        ok (record s {
          total_requests = some requests;
          dataset_bytes = some size;
          duration_ms = some duration;
          average_latency_ms = some average;
        }))
      else ok s

  unfoldable pub on_line : Metrics F → Bytes → Result (Metrics F) RunnerError
  unfolding on_throughput on_latency on_requests
  on_line s raw_line =
      let line = trim raw_line in
      if is_empty line
      then ok s
      else (do s1 ← on_throughput line s; s2 ← on_latency line s1; on_requests line s2)

  unfoldable pub on_lines : Metrics F → List Bytes → Result (Metrics F) RunnerError
  on_lines s [] = ok s
  on_lines s (line ∷ rest) = do s' ← on_line s line; on_lines s' rest

-- `Some` of the values that a `match` on several options has
abbrev both : {A B : Type 0} → Option A → (A → Option B) → Option B
both none g = none
both (some a) g = g a

module _ {F : Type 0} where
  abbrev pub no_metrics : Metrics F
  no_metrics = record {
    throughput_ops_per_sec = none;
    total_requests = none;
    dataset_bytes = none;
    duration_ms = none;
    average_latency_ms = none;
    p50_latency_ms = none;
    p95_latency_ms = none;
    p99_latency_ms = none;
  }

  -- the result, if every value was there
  unfoldable pub collect : Metrics F → Option (BenchmarkResult F)
  collect s = both s.total_requests λ total. both s.throughput_ops_per_sec λ throughput.
      both s.average_latency_ms λ average. both s.p50_latency_ms λ p50. both s.p95_latency_ms λ p95.
        both s.p99_latency_ms λ p99. both s.duration_ms λ duration. both s.dataset_bytes λ size.
          some (record {
            total_requests = total;
            throughput_ops_per_sec = throughput;
            average_latency_ms = average;
            p50_latency_ms = p50;
            p95_latency_ms = p95;
            p99_latency_ms = p99;
            duration_ms = duration;
            dataset_bytes = size;
          })

  unfoldable pub parse_output :
      ⦃f : Float F⦄ → Bytes → Bytes → Result (BenchmarkResult F) RunnerError
  unfolding on_lines collect ok_or
  parse_output stdout stderr = do
    s ← on_lines no_metrics (lines stdout)
    ok_or (bytes "failed to parse redis-benchmark output: " ++ stderr) (collect s)
