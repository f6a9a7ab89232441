-- ===== src/Gui/InfoPoller.antt =====
-- hkv-gui/src-tauri/src/info_poller.rs: `InfoPoller`. The client is a parameter: the answers to
-- `connect` and to `info`.
use hybird_kv.Prelude.{Option, none, some, Bytes, bytes, ◌++◌, ℕ}
use hybird_kv.Prelude.Float.{Float}
use hybird_kv.Common.Numbers.{show}
use hybird_kv.Gui.Models.{Result, ok, err, InfoSnapshot}
use hybird_kv.Gui.Info.{InfoError, parse_info_snapshot}

-- why a poll fails: the client, in its own words, or the text
pub data PollError : Type 0 where
  client : Bytes → PollError
  text : InfoError → PollError

pub record PollerState : Type 0 where
  pub last_snapshot : Option InfoSnapshot
  pub last_error : Option PollError

abbrev pub new_poller : PollerState
new_poller = record { last_snapshot = none; last_error = none }

unfoldable pub record_error : PollError → PollerState → PollerState
record_error e s = record s { last_error = some e }

unfoldable pub on_parsed :
    PollerState → Result InfoSnapshot InfoError → PollerState × Result InfoSnapshot PollError
unfolding record_error
on_parsed s (err e) = (record_error (text e) s, err (text e))
on_parsed s (ok snapshot) =
    (record s { last_error = none; last_snapshot = some snapshot }, ok snapshot)

module _ (F : Type 0) ⦃f : Float F⦄ where
  -- `poll`, with the answer of the client to `info` and the seconds on the clock
  unfoldable pub on_info :
      ℕ → PollerState → Result Bytes Bytes → PollerState × Result InfoSnapshot PollError
  unfolding record_error on_parsed parse_info_snapshot
  on_info now s (err e) = (record_error (client e) s, err (client e))
  on_info now s (ok raw) = on_parsed s (parse_info_snapshot F (show now ++ bytes "Z") raw)

  unfoldable pub poll :
      ℕ
      → PollerState
      → Result (Result Bytes Bytes) Bytes
      → PollerState × Result InfoSnapshot PollError
  unfolding record_error on_info
  poll now s (err e) = (record_error (client e) s, err (client e))
  poll now s (ok info) = on_info now s info

unfoldable pub clear : PollerState → PollerState
clear s = record s { last_snapshot = none; last_error = none }
