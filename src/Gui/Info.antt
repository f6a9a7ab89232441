-- ===== src/Gui/Info.antt =====
-- hkv-gui/src-tauri/src/server_manager.rs: `parse_info_snapshot`, the reader of the server's
-- `INFO`. An error keeps the line's name and value, without the library's own words for the fault.
use hybird_kv.Prelude.{
  ℕ, ◌-◌, ◌^◌, Option, none, some, List, [], ◌∷◌, Bytes, bytes, bytes_eq, if◌then◌else◌,
}
use hybird_kv.Prelude.Float.{Float}
use hybird_kv.Common.Numbers.{parse_uint}
use hybird_kv.Gui.Text.{trim, is_empty, split_once, lines}
use hybird_kv.Gui.Models.{Result, ok, err, ◌>>=◌, InfoSnapshot}
pub mod Reads

pub data InfoError : Type 0 where
  -- `invalid {name} value '{value}': ...`
  invalid : Bytes → Bytes → InfoError
  -- `INFO output missing role`
  missing_role : InfoError

abbrev pub u64_max : ℕ
u64_max = 2 ^ 64 - 1

-- the variables of the loop
pub record Seen (F : Type 0) : Type 0 where
  pub role : Option Bytes
  pub requests_total : ℕ
  pub qps_avg : F
  pub uptime_seconds : ℕ
  pub connected_clients : ℕ
  pub used_memory : ℕ
  pub keyspace_hits : ℕ
  pub keyspace_misses : ℕ

-- the value that `parse` reads, or the error of its line
unfoldable pub parsed : {A : Type 0} → Bytes → Bytes → Option A → Result A InfoError
parsed name value none = err (invalid name value)
parsed name value (some a) = ok a

module _ {F : Type 0} ⦃f : Float F⦄ where
  -- the `match` on the name of a line
  unfoldable pub on_field : Seen F → Bytes → Bytes → Result (Seen F) InfoError
  unfolding parsed
  on_field s name value =
      let number = parsed name value (parse_uint u64_max value) in
      let decimal = parsed name value (f.parse value) in
      if bytes_eq name (bytes "role")
      then ok (record s { role = some value })
      else if bytes_eq name (bytes "connected_clients")
      then (do n ← number; ok (record s { connected_clients = n }))
      else if bytes_eq name (bytes "used_memory")
      then (do n ← number; ok (record s { used_memory = n }))
      else if bytes_eq name (bytes "requests_total")
      then (do n ← number; ok (record s { requests_total = n }))
      else if bytes_eq name (bytes "total_commands_processed")
      then (do n ← number; ok (record s { requests_total = n }))
      else if bytes_eq name (bytes "qps_avg")
      then (do x ← decimal; ok (record s { qps_avg = x }))
      else if bytes_eq name (bytes "instantaneous_ops_per_sec")
      then (do x ← decimal; ok (record s { qps_avg = x }))
      else if bytes_eq name (bytes "uptime_sec")
      then (do x ← decimal; ok (record s { uptime_seconds = f.floor_u64 x }))
      else if bytes_eq name (bytes "uptime_in_seconds")
      then (do n ← number; ok (record s { uptime_seconds = n }))
      else if bytes_eq name (bytes "keyspace_hits")
      then (do n ← number; ok (record s { keyspace_hits = n }))
      else if bytes_eq name (bytes "keyspace_misses")
      then (do n ← number; ok (record s { keyspace_misses = n }))
      else ok s

  unfoldable pub on_line : Seen F → Bytes → Result (Seen F) InfoError
  unfolding on_field
  on_line s raw_line =
      if is_empty (trim raw_line) then ok s else elim (split_once b':' (trim raw_line)) [
        | none ↦ ok s
        | some parts ↦ on_field s parts.0 parts.1
      ]

  unfoldable pub on_lines : Seen F → List Bytes → Result (Seen F) InfoError
  unfolding on_line
  on_lines s [] = ok s
  on_lines s (line ∷ rest) = do s' ← on_line s line; on_lines s' rest

  unfoldable pub unseen : Seen F
  unseen = record {
    role = none;
    requests_total = 0;
    qps_avg = f.tenths 0;
    uptime_seconds = 0;
    connected_clients = 0;
    used_memory = 0;
    keyspace_hits = 0;
    keyspace_misses = 0;
  }

  -- the snapshot that the lines give
  unfoldable pub finish : Bytes → Seen F → Result InfoSnapshot InfoError
  finish captured_at s = elim s.role [
    | none ↦ err missing_role
    | some role ↦ ok (record {
      captured_at = captured_at;
      role = role;
      connected_clients = s.connected_clients;
      used_memory = s.used_memory;
      total_commands_processed = s.requests_total;
      instantaneous_ops_per_sec = f.round_u64 s.qps_avg;
      keyspace_hits = s.keyspace_hits;
      keyspace_misses = s.keyspace_misses;
      uptime_seconds = s.uptime_seconds;
    })
  ]

module _ (F : Type 0) ⦃f : Float F⦄ where
  unfoldable pub parse_info_snapshot : Bytes → Bytes → Result InfoSnapshot InfoError
  unfolding on_lines finish
  parse_info_snapshot captured_at raw = do
    s ← on_lines (unseen {F = F}) (lines raw)
    finish captured_at s
