-- ===== src/Gui/Models.antt =====
-- hkv-gui/src-tauri/src/models.rs. Times and states are texts, as in the source; `F` is `f64`.
use hybird_kv.Prelude.{ℕ, ◌||◌, not, Option, Bytes, bytes, ◌==◌, if◌then◌else◌}
use hybird_kv.Gui.Text.{trim, is_empty, contains}

-- `Result<A, E>`
pub data Result (A E : Type 0) : Type 0 where
  ok : A → Result A E
  err : E → Result A E

-- the `?` operator
infixl 5 ◌>>=◌
abbrev pub ◌>>=◌ : {A B E : Type 0} → Result A E → (A → Result B E) → Result B E
ok a >>= f = f a
err e >>= f = err e

pub record BenchmarkRunRequest : Type 0 where
  pub runner : Bytes
  pub target_addr : Bytes
  pub clients : ℕ
  pub requests : ℕ
  pub data_size : ℕ
  pub pipeline : ℕ

-- `BenchmarkRunRequest::validate`
unfoldable pub validate : BenchmarkRunRequest → Result Unit Bytes
validate r =
    if is_empty (trim r.runner)
    then err (bytes "runner must not be empty")
    else if is_empty (trim r.target_addr) || not (contains (bytes ":") r.target_addr)
    then err (bytes "target_addr must use host:port format")
    else if r.clients == 0 || r.requests == 0 || r.data_size == 0 || r.pipeline == 0
    then err (bytes "clients, requests, data_size, and pipeline must be greater than zero")
    else ok tt

pub record BenchmarkResult (F : Type 0) : Type 0 where
  pub total_requests : ℕ
  pub throughput_ops_per_sec : F
  pub average_latency_ms : F
  pub p50_latency_ms : F
  pub p95_latency_ms : F
  pub p99_latency_ms : F
  pub duration_ms : ℕ
  pub dataset_bytes : ℕ

pub record BenchmarkRun (F : Type 0) : Type 0 where
  pub id : Bytes
  pub request : BenchmarkRunRequest
  pub status : Bytes
  pub created_at : Bytes
  pub started_at : Option Bytes
  pub finished_at : Option Bytes
  pub result : Option (BenchmarkResult F)
  pub error_message : Option Bytes

pub record NormalizedRunSummary (F : Type 0) : Type 0 where
  pub id : Bytes
  pub runner : Bytes
  pub status : Bytes
  pub target_addr : Bytes
  pub created_at : Bytes
  pub finished_at : Option Bytes
  pub throughput_ops_per_sec : Option F
  pub p95_latency_ms : Option F

pub record ServerStatus : Type 0 where
  pub state : Bytes
  pub address : Bytes
  pub pid : Option ℕ
  pub started_at : Option Bytes
  pub last_error : Option Bytes

pub record InfoSnapshot : Type 0 where
  pub captured_at : Bytes
  pub role : Bytes
  pub connected_clients : ℕ
  pub used_memory : ℕ
  pub total_commands_processed : ℕ
  pub instantaneous_ops_per_sec : ℕ
  pub keyspace_hits : ℕ
  pub keyspace_misses : ℕ
  pub uptime_seconds : ℕ

pub record StartServerRequest : Type 0 where
  pub address : Bytes
  pub port : ℕ

pub record BenchmarkEventEnvelope : Type 0 where
  pub channel : Bytes
  pub event : Bytes
  pub run_id : Bytes
  pub emitted_at : Bytes
  pub message : Option Bytes
  pub error : Option Bytes

abbrev pub benchmark_event_channel : Bytes
benchmark_event_channel = bytes "benchmark:lifecycle"
