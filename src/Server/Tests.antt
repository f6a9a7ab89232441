-- ===== src/Server/Tests.antt =====
-- The metrics at concrete calls.
use hybird_kv.Prelude.{ℕ, ◌≡◌, List, [], ◌∷◌, ret, arith}
use hybird_kv.Server.Metrics.{Metrics, LatencyHistogram, percentile_from, with_latency_buckets}
use hybird_kv.Server.Percentile.{Reaches, bound_or_max, percentile-Reaches}
use hybird_kv.Server.Tally.{Call, request_start, request_end, error, run, Tallies, run-Tallies}

abbrev bounds : List ℕ
bounds = 10 ∷ 20 ∷ 50 ∷ 100 ∷ []

abbrev calls : List Call
calls =
    error
    ∷ request_end 80
    ∷ request_start
    ∷ request_end 12
    ∷ request_start
    ∷ request_end 9
    ∷ request_start
    ∷ []

run-Tallies_example :
    (m : Metrics) × (run calls (with_latency_buckets bounds) ≡ ret m) × Tallies m bounds calls
run-Tallies_example = run-Tallies bounds calls

abbrev two_samples : LatencyHistogram
two_samples = record {
  bounds_us = bounds;
  buckets = 1 ∷ 0 ∷ 0 ∷ 1 ∷ 0 ∷ [];
  sum_us = 89;
  samples = 2;
  max_us = 80;
}

percentile-Reaches_example :
    (idx : ℕ) × Reaches two_samples.buckets 0 2 idx
    × (percentile_from two_samples 2 0 0 two_samples.buckets ≡ bound_or_max two_samples idx)
percentile-Reaches_example =
    percentile-Reaches two_samples 2 (omega arith) (omega arith) (omega arith)
