-- ===== src/Server/Tally.antt =====
-- The metrics after any sequence of calls.
use hybird_kv.Prelude.{ℕ, suc, ◌+◌, ◌%◌, ◌<◌, ◌≡◌, refl, arith, List, [], ◌∷◌, Outcome, ret, ◌>>=◌}
use hybird_kv.Engine.Word.{word, add_word, sub_word}
use hybird_kv.Server.Metrics.{
  Metrics, with_latency_buckets, record_request_start, record_request_end, record_error,
}
use hybird_kv.Server.Counting.{Tracks, new_histogram-Tracks, record_latency-Tracks}

-- A call of a recording method.
pub data Call : Type 0 where
  request_start error : Call
  request_end : ℕ → Call

unfoldable pub call : Call → Metrics → Outcome Metrics
unfolding record_request_start record_error
call request_start m = ret (record_request_start m)
call error m = ret (record_error m)
call (request_end latency) m = record_request_end latency m

-- The calls of a list, the last one first.
unfoldable pub run : List Call → Metrics → Outcome Metrics
run [] m = ret m
run (c ∷ calls) m = do m' ← run calls m; call c m'

abbrev pub starts : List Call → ℕ
starts [] = 0
starts (request_start ∷ calls) = suc (starts calls)
starts (_ ∷ calls) = starts calls

abbrev pub errors : List Call → ℕ
errors [] = 0
errors (error ∷ calls) = suc (errors calls)
errors (_ ∷ calls) = errors calls

abbrev pub latencies : List Call → List ℕ
latencies [] = []
latencies (request_end latency ∷ calls) = latency % word ∷ latencies calls
latencies (_ ∷ calls) = latencies calls

abbrev pub ends : List Call → ℕ
ends [] = 0
ends (request_end latency ∷ calls) = suc (ends calls)
ends (_ ∷ calls) = ends calls

-- The metrics stand for the calls: the totals count them, cut to a word, what is in flight and what
-- has ended make up what has started, and the histogram stands for the latencies.
pub record Tallies (m : Metrics) (bounds : List ℕ) (calls : List Call) : Type 0 where
  pub requests : m.requests_total ≡ starts calls % word
  pub failed : m.errors_total ≡ errors calls % word
  pub pending : m.inflight < word
  pub balanced : (m.inflight + ends calls) % word ≡ starts calls % word
  pub tracked : Tracks m.latency bounds (latencies calls)

pub record_request_start-Tallies :
    (m : Metrics) (bounds : List ℕ) (calls : List Call)
    → Tallies m bounds calls
    → Tallies (record_request_start m) bounds (request_start ∷ calls)
unfolding record_request_start add_word
record_request_start-Tallies m bounds calls t = record {
  requests = omega (arith, t.requests);
  failed = t.failed;
  pending = omega arith;
  balanced = omega (arith, t.balanced);
  tracked = t.tracked;
}

pub record_error-Tallies :
    (m : Metrics) (bounds : List ℕ) (calls : List Call)
    → Tallies m bounds calls
    → Tallies (record_error m) bounds (error ∷ calls)
unfolding record_error add_word
record_error-Tallies m bounds calls t = record {
  requests = t.requests;
  failed = omega (arith, t.failed);
  pending = t.pending;
  balanced = t.balanced;
  tracked = t.tracked;
}

pub record_request_end-Tallies :
    (latency : ℕ) (m : Metrics) (bounds : List ℕ) (calls : List Call)
    → Tallies m bounds calls
    → (m' : Metrics) × (record_request_end latency m ≡ ret m')
      × Tallies m' bounds (request_end latency ∷ calls)
unfolding record_request_end sub_word
record_request_end-Tallies latency m bounds calls t =
    let (h, r, k) = record_latency-Tracks latency m.latency bounds (latencies calls) t.tracked in
    (
      record m { inflight = sub_word m.inflight 1; latency = h },
      rw r,
      record {
        requests = t.requests;
        failed = t.failed;
        pending = omega arith;
        balanced = omega (arith, t.balanced, t.pending);
        tracked = k;
      },
    )

call-Tallies :
    (c : Call) (m : Metrics) (bounds : List ℕ) (calls : List Call)
    → Tallies m bounds calls
    → (m' : Metrics) × (call c m ≡ ret m') × Tallies m' bounds (c ∷ calls)
unfolding call
call-Tallies request_start m bounds calls t =
    (record_request_start m, refl, record_request_start-Tallies m bounds calls t)
call-Tallies error m bounds calls t = (record_error m, refl, record_error-Tallies m bounds calls t)
call-Tallies (request_end latency) m bounds calls t =
    record_request_end-Tallies latency m bounds calls t

pub new_metrics-Tallies : (bounds : List ℕ) → Tallies (with_latency_buckets bounds) bounds []
unfolding with_latency_buckets
new_metrics-Tallies bounds = record {
  requests = refl;
  failed = refl;
  pending = omega arith;
  balanced = refl;
  tracked = new_histogram-Tracks bounds;
}

-- No sequence of calls on new metrics panics, and the metrics that it ends in stand for the calls:
-- the counters of requests and errors, what is in flight, and the number, sum and maximum of the
-- latencies, and in each bucket the number of those that are above every bound before it and not
-- above its own.
pub run-Tallies :
    (bounds : List ℕ) (calls : List Call)
    → (m : Metrics) × (run calls (with_latency_buckets bounds) ≡ ret m) × Tallies m bounds calls
unfolding run
run-Tallies bounds [] = (_, refl, new_metrics-Tallies bounds)
run-Tallies bounds (c ∷ calls) =
    let (m, r, t) = run-Tallies bounds calls in
    let (m', q, u) = call-Tallies c m bounds calls t in (m', rw r q, u)
