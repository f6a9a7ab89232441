-- ===== src/Gui/Manager.antt =====
-- hkv-gui/src-tauri/src/server_manager.rs: `ServerManager`. Each method runs under the lock. The
-- operating system is a parameter that answers each call from all the calls before it; the calls
-- and the answers that they got are the state `World`, the last one first.
use hybird_kv.Prelude.{ℕ, Option, none, some, List, [], ◌∷◌, ◌++◌, Bytes, bytes}
use hybird_kv.Prelude.Int.{ℤ}
use hybird_kv.Common.Numbers.{show, show_signed}
use hybird_kv.Gui.Models.{Result, ok, err, ServerStatus, StartServerRequest}
pub mod Children

pub record LaunchSpec : Type 0 where
  pub program : Bytes
  pub env : List (Bytes × Bytes)

-- a call that was made, with the identifier of the child that it is about
pub data Call : Type 0 where
  spawned : ℕ → Call
  slept : Call
  clock_read : Call
  -- `try_wait`, for a child that runs and for one that has exited
  runs : ℕ → Call
  exited : ℕ → ℤ → Call
  killed : ℕ → Call
  waited : ℕ → Call
  -- a call that failed
  failed : Call

abbrev pub World : Type 0
World = List Call

-- `ProcessLauncher`, `ManagedChild` and the clock. An error comes as its text, and the time in
-- seconds.
pub record Os : Type 0 where
  pub spawn_answer : World → LaunchSpec → Result ℕ Bytes
  pub try_wait_answer : World → ℕ → Result (Option ℤ) Bytes
  pub kill_answer : World → ℕ → Result Unit Bytes
  pub wait_answer : World → ℕ → Result Unit Bytes
  pub time : World → ℕ
  pub default_server_binary_path : Bytes

-- `ManagedProcess`, whose child is known by its identifier
pub record ManagedProcess : Type 0 where
  pub address : Bytes
  pub started_at : Bytes
  pub pid : ℕ

pub record ManagerState : Type 0 where
  pub process : Option ManagedProcess
  pub last_error : Option Bytes
  pub last_launch_spec : Option LaunchSpec

abbrev pub new_manager : ManagerState
new_manager = record { process = none; last_error = none; last_launch_spec = none }

unfoldable pub default_request : StartServerRequest
default_request = record { address = bytes "127.0.0.1"; port = 6380 }

unfoldable pub format_address : StartServerRequest → Bytes
format_address r = r.address ++ b':' ∷ show r.port

unfoldable pub default_address_string : Bytes
default_address_string = bytes "127.0.0.1:6380"

unfoldable pub iso_timestamp : ℕ → Bytes
iso_timestamp seconds = show seconds ++ bytes "Z"

unfoldable pub running_status : ManagerState → ManagedProcess → ServerStatus
running_status s p = record {
  state = bytes "running";
  address = p.address;
  pid = some p.pid;
  started_at = some p.started_at;
  last_error = s.last_error;
}

unfoldable pub stopped_status : ManagerState → Bytes → ServerStatus
stopped_status s address = record {
  state = bytes "stopped";
  address = address;
  pid = none;
  started_at = none;
  last_error = s.last_error;
}

-- the result of a method: the calls made, the state, and what it returns
abbrev pub Run : Type 0 → Type 0
Run A = World × ManagerState × A

module _ (os : Os) where
  open os use {
    spawn_answer, try_wait_answer, kill_answer, wait_answer, time, default_server_binary_path,
  }

  unfoldable pub try_wait : World → ℕ → World × Result (Option ℤ) Bytes
  try_wait w pid = elim (try_wait_answer w pid) [
    | ok none ↦ (runs pid ∷ w, ok none)
    | ok (some code) ↦ (exited pid code ∷ w, ok (some code))
    | err e ↦ (failed ∷ w, err e)
  ]

  unfoldable pub spawn : World → LaunchSpec → World × Result ℕ Bytes
  spawn w spec = elim (spawn_answer w spec) [
    | ok pid ↦ (spawned pid ∷ w, ok pid)
    | err e ↦ (failed ∷ w, err e)
  ]

  unfoldable pub kill : World → ℕ → World × Result Unit Bytes
  kill w pid = elim (kill_answer w pid) [
    | ok _ ↦ (killed pid ∷ w, ok tt)
    | err e ↦ (failed ∷ w, err e)
  ]

  unfoldable pub wait : World → ℕ → World × Result Unit Bytes
  wait w pid = elim (wait_answer w pid) [
    | ok _ ↦ (waited pid ∷ w, ok tt)
    | err e ↦ (failed ∷ w, err e)
  ]

  -- `start`, from the check of the new child on
  unfoldable pub on_started :
      Bytes → ℕ → ManagerState → World × Result (Option ℤ) Bytes → Run (Result ServerStatus Bytes)
  unfolding running_status iso_timestamp
  on_started address pid s (w, err e) =
      (w, s, err (bytes "failed to inspect hkv-server startup: " ++ e))
  on_started address pid s (w, ok (some code)) =
      let message =
        bytes "hkv-server exited before becoming ready (exit code "
        ++ show_signed code
        ++ bytes ")" in
      (w, record s { last_error = some message }, err message)
  on_started address pid s (w, ok none) =
      let p : ManagedProcess = record {
        address = address;
        started_at = iso_timestamp (time w);
        pid = pid;
      } in
      let s' = record s { last_error = none; process = some p } in
      (clock_read ∷ w, s', ok (running_status s' p))

  unfoldable pub on_spawned :
      Bytes → ManagerState → World × Result ℕ Bytes → Run (Result ServerStatus Bytes)
  unfolding on_started try_wait
  on_spawned address s (w, err e) = (w, s, err e)
  on_spawned address s (w, ok pid) = on_started address pid s (try_wait (slept ∷ w) pid)

  -- `start`, when no child runs
  unfoldable pub launch : Bytes → ManagerState → World → Run (Result ServerStatus Bytes)
  unfolding on_spawned spawn
  launch address s w =
      let spec : LaunchSpec = record {
        program = default_server_binary_path;
        env = (bytes "HKV_ADDR", address) ∷ [];
      } in
      on_spawned address (record s { last_launch_spec = some spec }) (spawn w spec)

  unfoldable pub inspect_failed : Bytes → Bytes
  inspect_failed e = bytes "failed to inspect hkv-server state: " ++ e

  unfoldable pub on_inspected :
      Bytes
      → ManagerState
      → ManagedProcess
      → World × Result (Option ℤ) Bytes
      → Run (Result ServerStatus Bytes)
  unfolding launch running_status inspect_failed
  on_inspected address s p (w, ok none) = (w, s, ok (running_status s p))
  on_inspected address s p (w, ok (some _)) = launch address (record s { process = none }) w
  on_inspected address s p (w, err e) =
      (w, record s { last_error = some (inspect_failed e) }, err (inspect_failed e))

  unfoldable pub unwrap_request : Option StartServerRequest → StartServerRequest
  unfolding default_request
  unwrap_request none = default_request
  unwrap_request (some r) = r

  unfoldable pub start :
      Option StartServerRequest → ManagerState → World → Run (Result ServerStatus Bytes)
  unfolding launch on_inspected try_wait format_address unwrap_request
  start request s w =
      let address = format_address (unwrap_request request) in
      elim s.process [
        | none ↦ launch address s w
        | some p ↦ on_inspected address s p (try_wait w p.pid)
      ]

  unfoldable pub on_waited :
      ManagerState → ManagedProcess → World × Result Unit Bytes → Run (Result ServerStatus Bytes)
  unfolding stopped_status
  on_waited s p (w, err e) = (w, s, err (bytes "failed to reap hkv-server: " ++ e))
  on_waited s p (w, ok _) = (w, s, ok (stopped_status s p.address))

  unfoldable pub on_killed :
      ManagerState → ManagedProcess → World × Result Unit Bytes → Run (Result ServerStatus Bytes)
  unfolding on_waited wait
  on_killed s p (w, err e) = (w, s, err (bytes "failed to stop hkv-server: " ++ e))
  on_killed s p (w, ok _) = on_waited s p (wait w p.pid)

  -- `stop`, with the process taken out of the state
  unfoldable pub on_taken :
      ManagerState
      → ManagedProcess
      → World × Result (Option ℤ) Bytes
      → Run (Result ServerStatus Bytes)
  unfolding on_killed kill stopped_status inspect_failed
  on_taken s p (w, err e) = (w, s, err (inspect_failed e))
  on_taken s p (w, ok none) = on_killed s p (kill w p.pid)
  on_taken s p (w, ok (some code)) =
      let message =
        bytes "hkv-server already exited (exit code " ++ show_signed code ++ bytes ")" in
      let s' = record s { last_error = some message } in (w, s', ok (stopped_status s' p.address))

  unfoldable pub stop : ManagerState → World → Run (Result ServerStatus Bytes)
  unfolding on_taken try_wait stopped_status default_address_string
  stop s w = elim s.process [
    | none ↦ (w, s, ok (stopped_status s default_address_string))
    | some p ↦ on_taken (record s { process = none }) p (try_wait w p.pid)
  ]

  unfoldable pub on_status :
      ManagerState → ManagedProcess → World × Result (Option ℤ) Bytes → Run ServerStatus
  unfolding running_status stopped_status inspect_failed
  on_status s p (w, ok none) = (w, s, running_status s p)
  on_status s p (w, ok (some code)) =
      let message =
        bytes "hkv-server exited unexpectedly (exit code " ++ show_signed code ++ bytes ")" in
      let s' = record s { last_error = some message; process = none } in
      (w, s', stopped_status s' p.address)
  on_status s p (w, err e) =
      let s' = record s { last_error = some (inspect_failed e) } in
      (w, s', stopped_status s' p.address)

  unfoldable pub status : ManagerState → World → Run ServerStatus
  unfolding on_status try_wait stopped_status default_address_string
  status s w = elim s.process [
    | none ↦ (w, s, stopped_status s default_address_string)
    | some p ↦ on_status s p (try_wait w p.pid)
  ]
