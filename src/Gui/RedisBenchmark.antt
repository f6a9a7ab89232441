-- ===== src/Gui/RedisBenchmark.antt =====
-- hkv-gui/src-tauri/src/runners/redis_benchmark.rs: the command line of redis-benchmark, and the
-- reader of its output.
pub mod Output
pub mod Process
pub mod Stopping
pub mod Addresses
use hybird_kv.Prelude.{
  ℕ, ◌-◌, ◌^◌, ◌||◌, Option, none, some, List, [], ◌∷◌, ◌++◌, Bytes, bytes, ◌==◌, if◌then◌else◌,
}
use hybird_kv.Common.Numbers.{show, parse_uint}
use hybird_kv.Gui.Text.{is_empty, split_once}
use hybird_kv.Gui.Models.{Result, ok, err, ◌>>=◌, BenchmarkRunRequest}
use hybird_kv.Gui.Runners.{RunnerError}

abbrev pub invalid_request : Bytes → RunnerError
invalid_request message = record { code = bytes "invalid_request"; message = message }

unfoldable pub split_target_addr : Bytes → Result (Bytes × ℕ) RunnerError
split_target_addr target_addr = elim (split_once b':' target_addr) [
  | none ↦ err (
      invalid_request
        (bytes "target address '" ++ target_addr ++ bytes "' must use host:port format"))
  | some parts ↦
      if is_empty parts.0
      then err (invalid_request (bytes "target host must not be empty"))
      else elim (parse_uint (2 ^ 16 - 1) parts.1) [
        | none ↦ err (
            invalid_request
              (bytes "target address '" ++ target_addr ++ bytes "' has an invalid port"))
        | some port ↦ ok (parts.0, port)
      ]
]

unfoldable pub validate_request : BenchmarkRunRequest → Result Unit RunnerError
unfolding split_target_addr
validate_request r =
    if r.clients == 0 || r.requests == 0 || r.data_size == 0 || r.pipeline == 0
    then err (
        invalid_request
          (bytes "clients, requests, data_size, and pipeline must be greater than zero"))
    else (do _ ← split_target_addr r.target_addr; ok tt)

unfoldable pub build_command : BenchmarkRunRequest → Result (List Bytes) RunnerError
unfolding validate_request split_target_addr
build_command r = do
  _ ← validate_request r
  (host, port) ← split_target_addr r.target_addr
  ok (
      bytes "-h"
      ∷ host
      ∷ bytes "-p"
      ∷ show port
      ∷ bytes "-c"
      ∷ show r.clients
      ∷ bytes "-n"
      ∷ show r.requests
      ∷ bytes "-d"
      ∷ show r.data_size
      ∷ bytes "-P"
      ∷ show r.pipeline
      ∷ bytes "--csv"
      ∷ [])
