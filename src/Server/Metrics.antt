-- ===== src/Server/Metrics.antt =====
-- hkv-server/src/metrics.rs: the counters and the latency histogram. A call on the atomic counters
-- runs as one step. A latency is a number of microseconds.
use hybird_kv.Prelude.{
  ℕ, suc, ◌+◌, ◌-◌, ◌%◌, List, [], ◌∷◌, none, some, Outcome, ret, panic, ◌>>=◌, length, get_elem?,
  set, replicate, max, min, leb, ltb, if◌then◌else◌,
}
use hybird_kv.Engine.Word.{word, add_word, sub_word}

pub record LatencyHistogram : Type 0 where
  pub bounds_us : List ℕ
  pub buckets : List ℕ
  pub sum_us : ℕ
  pub samples : ℕ
  pub max_us : ℕ

-- `LatencyHistogram::new`
unfoldable pub new_histogram : List ℕ → LatencyHistogram
new_histogram bounds_us = record {
  bounds_us = bounds_us;
  buckets = replicate (suc (length bounds_us)) 0;
  sum_us = 0;
  samples = 0;
  max_us = 0;
}

-- the loop over the bounds, from index `i` on, that sets `bucket_idx`: with no bound left it is the
-- number of bounds
unfoldable pub bucket_from : ℕ → ℕ → List ℕ → ℕ
bucket_from micros i [] = i
bucket_from micros i (bound ∷ bounds) =
    let rest = bucket_from micros (suc i) bounds in if leb micros bound then i else rest

-- `self.buckets[i].fetch_add(1)`
unfoldable pub bump : List ℕ → ℕ → Outcome (List ℕ)
bump buckets i = elim (get_elem? buckets i) [
  | none ↦ panic
  | some n ↦ ret (set buckets i (add_word n 1))
]

-- `LatencyHistogram::record`, of a latency whose count of microseconds `as u64` cuts to a word
unfoldable pub record_latency : ℕ → LatencyHistogram → Outcome LatencyHistogram
record_latency latency h = do
  let micros = latency % word
  buckets ← bump h.buckets (bucket_from micros 0 h.bounds_us)
  ret (record h {
    buckets = buckets;
    sum_us = add_word h.sum_us micros;
    samples = add_word h.samples 1;
    max_us = max h.max_us micros;
  })

-- the loop of `percentile_us` over the buckets, from index `idx` on, with `target` for the rank
-- that the percentile asks for
unfoldable pub percentile_from : LatencyHistogram → ℕ → ℕ → ℕ → List ℕ → ℕ
percentile_from h target idx cumulative [] = h.max_us
percentile_from h target idx cumulative (count ∷ counts) =
    let sum = min (cumulative + count) (word - 1) in
    let rest = percentile_from h target (suc idx) sum counts in
    if ltb sum target
    then rest
    else elim (get_elem? h.bounds_us idx) [ none ↦ h.max_us | some bound ↦ bound ]

pub record Metrics : Type 0 where
  pub requests_total : ℕ
  pub errors_total : ℕ
  pub inflight : ℕ
  pub latency : LatencyHistogram

unfoldable pub with_latency_buckets : List ℕ → Metrics
with_latency_buckets bounds_us = record {
  requests_total = 0;
  errors_total = 0;
  inflight = 0;
  latency = new_histogram bounds_us;
}

unfoldable pub record_request_start : Metrics → Metrics
record_request_start m = record m {
  requests_total = add_word m.requests_total 1;
  inflight = add_word m.inflight 1;
}

unfoldable pub record_request_end : ℕ → Metrics → Outcome Metrics
record_request_end latency m = do
  h ← record_latency latency m.latency
  ret (record m { inflight = sub_word m.inflight 1; latency = h })

unfoldable pub record_error : Metrics → Metrics
record_error m = record m { errors_total = add_word m.errors_total 1 }
