-- ===== src/Gui/Tests.antt =====
-- Concrete runs of the backend, and its theorems applied to them.
use hybird_kv.Prelude.{
  ◌≡◌, refl, Bool, true, false, none, some, [], ◌∷◌, bytes, bytes_eq, arith, if◌then◌else◌,
}
use hybird_kv.Prelude.Float.{Float, Visible}
use hybird_kv.Common.Numbers.{show}
use hybird_kv.Server.Metrics.{with_latency_buckets}
use hybird_kv.Server.Info.{MetricsSnapshot, qps, handle_info}
use hybird_kv.Gui.Models.{ok, BenchmarkRunRequest, StartServerRequest}
use hybird_kv.Gui.Info.{parse_info_snapshot}
use hybird_kv.Gui.Info.Reads.{handle_info-parse_info_snapshot}
use hybird_kv.Gui.Manager.{
  Os, try_wait, spawn, ManagedProcess, ManagerState, new_manager, runs, running_status,
}
use hybird_kv.Gui.Manager
use hybird_kv.Gui.Manager.Children.{Method, children, flawless, managed, run, after, run-Managed}
use hybird_kv.Gui.RedisBenchmark.{build_command}
use hybird_kv.Gui.RedisBenchmark.Addresses.{format_address-build_command}
use hybird_kv.Gui.RedisBenchmark.Stopping.{
  Shared, exit, stop, here, next, stopped, stop_locked, Refused, Run-Refused, begun,
}

-- Two numbers, zero and one.
instance pub bits : Float Bool
unfolding bytes_eq
bits = record {
  tenths = λ n. false;
  from_u64 = λ n. true;
  as_secs = λ n. true;
  mul = λ a b. a;
  div = λ a b. a;
  le = λ a b. true;
  eq = λ a b. false;
  epsilon = false;
  ceil_u64 = λ a. 1;
  floor_u64 = λ a. 1;
  round_u64 = λ a. 1;
  show3 = λ a. if a then bytes "1.000" else bytes "0.000";
  parse = λ s. some (bytes_eq s (bytes "1.000"));
  round3 = λ a. a;
  show3-Visible = shown;
  parse-show3 = reread;
}
  where
    shown : (a : Bool) → Visible (if a then bytes "1.000" else bytes "0.000")
    shown true = omega arith
    shown false = omega arith

    reread :
        (a : Bool)
        → some (bytes_eq (if a then bytes "1.000" else bytes "0.000") (bytes "1.000")) ≡ some a
    reread true = refl
    reread false = refl

abbrev idle : MetricsSnapshot
idle = record {
  requests_total = 42;
  errors_total = 1;
  inflight = 0;
  uptime = 12000000000;
  latency = (with_latency_buckets (10 ∷ [])).latency;
}

handle_info-parse_info_snapshot_example :
    parse_info_snapshot Bool (bytes "1Z") (handle_info Bool idle)
    ≡ ok (record {
      captured_at = bytes "1Z";
      role = bytes "master";
      connected_clients = 0;
      used_memory = 0;
      total_commands_processed = 42;
      instantaneous_ops_per_sec = bits.round_u64 (bits.round3 (qps idle));
      keyspace_hits = 0;
      keyspace_misses = 0;
      uptime_seconds = bits.floor_u64 (bits.round3 (bits.as_secs 12000000000));
    })
handle_info-parse_info_snapshot_example =
    handle_info-parse_info_snapshot Bool (bytes "1Z") idle (omega arith)

-- A system where every call succeeds.
abbrev sound : Os
sound = record {
  spawn_answer = λ w spec. ok 7;
  try_wait_answer = λ w pid. ok none;
  kill_answer = λ w pid. ok tt;
  wait_answer = λ w pid. ok tt;
  time = λ w. 5;
  default_server_binary_path = bytes "hkv-server";
}

run-Managed_example :
    children (run sound (Method.status ∷ Method.start none ∷ [])).1
    ≡ managed (run sound (Method.status ∷ Method.start none ∷ [])).0.process
unfolding run after Manager.start Manager.launch Manager.on_spawned Manager.on_started spawn
    try_wait Manager.status Manager.on_status flawless
run-Managed_example = run-Managed sound (Method.status ∷ Method.start none ∷ []) refl

abbrev taken : Shared
taken = record begun { present = false; locked = true }

abbrev finished : Shared
finished = record taken { locked = false }

Run-Refused_example : Refused taken (stop_locked stopped finished)
Run-Refused_example =
    Run-Refused taken refl (next (next here (exit taken refl)) (stop stopped finished refl))

abbrev pub request : BenchmarkRunRequest
request = record {
  runner = bytes "redis-benchmark";
  target_addr = bytes "db:6380";
  clients = 50;
  requests = 100000;
  data_size = 128;
  pipeline = 4;
}

abbrev server : StartServerRequest
server = record { address = bytes "db"; port = 6380 }

format_address-build_command_example :
    build_command request
    ≡ ok (
        bytes "-h"
        ∷ bytes "db"
        ∷ bytes "-p"
        ∷ show 6380
        ∷ bytes "-c"
        ∷ show 50
        ∷ bytes "-n"
        ∷ show 100000
        ∷ bytes "-d"
        ∷ show 128
        ∷ bytes "-P"
        ∷ show 4
        ∷ bytes "--csv"
        ∷ [])
unfolding Manager.format_address show
format_address-build_command_example =
    format_address-build_command server (λ e. cc e) (refl, (refl, tt)) (omega arith) request refl
      refl
