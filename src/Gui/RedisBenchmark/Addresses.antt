-- ===== src/Gui/RedisBenchmark/Addresses.antt =====
-- The address of a server, as hkv-gui/src-tauri/src/server_manager.rs writes it and
-- hkv-gui/src-tauri/src/runners/redis_benchmark.rs reads it.
use hybird_kv.Prelude.{
  ◌-◌, ◌≡◌, ◌≢◌, refl, ◌^◌, ◌<◌, ◌==◌, ◌||◌, false, [], ◌∷◌, Bytes, bytes, arith,
}
use hybird_kv.Common.Numbers.{show, parse_uint-show}
use hybird_kv.Gui.Text.{is_empty}
use hybird_kv.Gui.Text.Lines.{Without, split_once-append}
use hybird_kv.Gui.Models.{ok, StartServerRequest, BenchmarkRunRequest}
use hybird_kv.Gui.Manager.{format_address}
use hybird_kv.Gui.RedisBenchmark.{split_target_addr, validate_request, build_command}

is_empty-ne : (s : Bytes) → s ≢ [] → is_empty s ≡ false
is_empty-ne [] n = absurd (n refl)
is_empty-ne (c ∷ cs) n = refl

module _ (r : StartServerRequest) (named : r.address ≢ []) (plain : Without b':' r.address)
    (small : r.port < 2 ^ 16) where
  split_address : split_target_addr (format_address r) ≡ ok (r.address, r.port)
  unfolding split_target_addr format_address
  split_address =
      rw (split_target_addr, split_once-append b':' r.address (show r.port) plain)
        (rw (is_empty-ne r.address named)
          (rw (parse_uint-show (2 ^ 16 - 1) r.port (omega arith) (omega arith))))

  -- A benchmark of the server that was started at an address with a host, without a colon in it,
  -- and a port of 16 bits: if its counts are not zero, the command line names that host and that
  -- port, and the counts.
  pub format_address-build_command :
      (b : BenchmarkRunRequest)
      → b.target_addr ≡ format_address r
      → (b.clients == 0 || b.requests == 0 || b.data_size == 0 || b.pipeline == 0) ≡ false
      → build_command b
        ≡ ok (
            bytes "-h"
            ∷ r.address
            ∷ bytes "-p"
            ∷ show r.port
            ∷ bytes "-c"
            ∷ show b.clients
            ∷ bytes "-n"
            ∷ show b.requests
            ∷ bytes "-d"
            ∷ show b.data_size
            ∷ bytes "-P"
            ∷ show b.pipeline
            ∷ bytes "--csv"
            ∷ [])
  unfolding build_command validate_request
  format_address-build_command b at counts = rw (counts, at) (rw split_address)
