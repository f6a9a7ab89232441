-- ===== src/Server/Info.antt =====
-- hkv-server/src/metrics.rs and hkv-server/src/server.rs: the snapshot of the metrics, and the text
-- of `INFO`. `f64` is an interface.
use hybird_kv.Prelude.{
  ℕ, ◌||◌, not, Option, none, some, List, [], ◌∷◌, ◌++◌, Bytes, bytes, max, ◌==◌, if◌then◌else◌,
}
use hybird_kv.Prelude.Float.{Float}
use hybird_kv.Common.Numbers.{show}
use hybird_kv.Server.Metrics.{LatencyHistogram, Metrics, percentile_from}

-- `MetricsSnapshot`, with the histogram that its `LatencySnapshot` copies
pub record MetricsSnapshot : Type 0 where
  pub requests_total : ℕ
  pub errors_total : ℕ
  pub inflight : ℕ
  pub uptime : ℕ
  pub latency : LatencyHistogram

-- `Metrics::snapshot`, when `elapsed` nanoseconds have passed since the start
unfoldable pub snapshot : ℕ → Metrics → MetricsSnapshot
snapshot elapsed m = record {
  requests_total = m.requests_total;
  errors_total = m.errors_total;
  inflight = m.inflight;
  uptime = elapsed;
  latency = m.latency;
}

unfoldable pub unwrap_or_zero : Option ℕ → ℕ
unwrap_or_zero none = 0
unwrap_or_zero (some n) = n

-- the text of the lines
unfoldable pub render : List (Bytes × Bytes) → Bytes
render [] = []
render ((name, value) ∷ fields) = (name ++ b':' ∷ value) ++ 13 ∷ 10 ∷ render fields

module _ {F : Type 0} ⦃f : Float F⦄ where
  unfoldable pub qps : MetricsSnapshot → F
  qps s =
      if f.le (f.as_secs s.uptime) f.epsilon
      then f.from_u64 s.requests_total
      else f.div (f.from_u64 s.requests_total) (f.as_secs s.uptime)

  unfoldable pub error_rate : MetricsSnapshot → F
  error_rate s =
      if s.requests_total == 0
      then f.tenths 0
      else f.div (f.from_u64 s.errors_total) (f.from_u64 s.requests_total)

  unfoldable pub average_us : LatencyHistogram → Option F
  average_us h =
      if h.samples == 0 then none else some (f.div (f.from_u64 h.sum_us) (f.from_u64 h.samples))

  unfoldable pub percentile_us : LatencyHistogram → F → Option ℕ
  percentile_us h percentile =
      if h.samples == 0
        || not (f.le (f.tenths 0) percentile)
        || not (f.le percentile (f.tenths 1000))
        || f.eq percentile (f.tenths 0)
      then none
      else (let rank =
            f.ceil_u64 (f.mul (f.from_u64 h.samples) (f.div percentile (f.tenths 1000))) in
          some (percentile_from h (max rank 1) 0 0 h.buckets))

  unfoldable pub unwrap_or_zero_f64 : Option F → F
  unwrap_or_zero_f64 none = f.tenths 0
  unwrap_or_zero_f64 (some x) = x

module _ (F : Type 0) ⦃f : Float F⦄ where
  -- the lines of `INFO`, as pairs of a name and a value
  unfoldable pub info_fields : MetricsSnapshot → List (Bytes × Bytes)
  unfolding qps error_rate average_us percentile_us unwrap_or_zero unwrap_or_zero_f64
  info_fields s =
      (bytes "role", bytes "master")
      ∷ (bytes "engine", bytes "hybridkv")
      ∷ (bytes "requests_total", show s.requests_total)
      ∷ (bytes "errors_total", show s.errors_total)
      ∷ (bytes "inflight", show s.inflight)
      ∷ (bytes "uptime_sec", f.show3 (f.as_secs s.uptime))
      ∷ (bytes "qps_avg", f.show3 (qps s))
      ∷ (bytes "error_rate", f.show3 (error_rate s))
      ∷ (bytes "latency_samples", show s.latency.samples)
      ∷ (bytes "latency_avg_us", f.show3 (unwrap_or_zero_f64 (average_us s.latency)))
      ∷ (bytes "latency_max_us", show s.latency.max_us)
      ∷ (bytes "latency_p50_us", show (unwrap_or_zero (percentile_us s.latency (f.tenths 500))))
      ∷ (bytes "latency_p90_us", show (unwrap_or_zero (percentile_us s.latency (f.tenths 900))))
      ∷ (bytes "latency_p99_us", show (unwrap_or_zero (percentile_us s.latency (f.tenths 990))))
      ∷ (bytes "latency_p999_us", show (unwrap_or_zero (percentile_us s.latency (f.tenths 999))))
      ∷ []

  -- `handle_info`, without the frame of its bulk string
  unfoldable pub handle_info : MetricsSnapshot → Bytes
  unfolding info_fields
  handle_info s = render (info_fields s)
