-- ===== src/Server/Observe.antt =====
-- hkv-server/src/observation.rs, and hkv-server/src/server.rs: the events that the commands give to
-- an observation log.
use hybird_kv.Prelude.{
  ℕ, suc, Bool, Option, none, some, List, [], ◌∷◌, ◌++◌, Bytes, bytes, length, if◌then◌else◌,
}
use hybird_kv.Wire.Parser.{starts_with}
use hybird_kv.Server.Commands.{eq_ignore_ascii_case}

pub data CommandKind : Type 0 where
  get set delete expire ttl unknown : CommandKind

pub data AccessClass : Type 0 where
  reading writing : AccessClass

pub record ObservationEvent : Type 0 where
  pub command : CommandKind
  pub key : Bytes
  pub access : AccessClass
  pub value_size : Option ℕ
  pub timestamp : ℕ

-- `ObservationEvent::read`
unfoldable pub read_event : CommandKind → Bytes → ℕ → ObservationEvent
read_event command key timestamp = record {
  command = command;
  key = key;
  access = reading;
  value_size = none;
  timestamp = timestamp;
}

-- `ObservationEvent::write`
unfoldable pub write_event : CommandKind → Bytes → Option ℕ → ℕ → ObservationEvent
write_event command key value_size timestamp = record {
  command = command;
  key = key;
  access = writing;
  value_size = value_size;
  timestamp = timestamp;
}

-- The events of a command. `clock` gives the time of each reading of the clock by its number.
unfoldable pub get_events : (ℕ → ℕ) → List Bytes → List ObservationEvent
unfolding read_event
get_events clock (_ ∷ key ∷ []) = read_event get key (clock 0) ∷ []
get_events clock _ = []

unfoldable pub set_events : (ℕ → ℕ) → List Bytes → List ObservationEvent
unfolding write_event
set_events clock (_ ∷ key ∷ value ∷ []) = write_event set key (some (length value)) (clock 0) ∷ []
set_events clock (_ ∷ key ∷ value ∷ ex ∷ _ ∷ []) =
    if eq_ignore_ascii_case ex (bytes "EX")
    then write_event set key (some (length value)) (clock 0) ∷ []
    else []
set_events clock _ = []

-- the `map` over the keys of `DEL`, from the reading with number `i` on
unfoldable pub delete_events : (ℕ → ℕ) → ℕ → List Bytes → List ObservationEvent
unfolding write_event
delete_events clock i [] = []
delete_events clock i (key ∷ keys) =
    write_event delete key none (clock i) ∷ delete_events clock (suc i) keys

unfoldable pub del_events : (ℕ → ℕ) → List Bytes → List ObservationEvent
unfolding delete_events
del_events clock (_ ∷ key ∷ keys) = delete_events clock 0 (key ∷ keys)
del_events clock _ = []

unfoldable pub expire_events : (ℕ → ℕ) → List Bytes → List ObservationEvent
unfolding write_event
expire_events clock (_ ∷ key ∷ _ ∷ []) = write_event expire key none (clock 0) ∷ []
expire_events clock _ = []

unfoldable pub ttl_events : (ℕ → ℕ) → List Bytes → List ObservationEvent
unfolding read_event
ttl_events clock (_ ∷ key ∷ []) = read_event ttl key (clock 0) ∷ []
ttl_events clock _ = []

unfoldable pub planned_observations : (ℕ → ℕ) → List Bytes → List ObservationEvent
planned_observations clock [] = []
planned_observations clock (command ∷ args) =
    if eq_ignore_ascii_case command (bytes "GET")
    then get_events clock (command ∷ args)
    else if eq_ignore_ascii_case command (bytes "SET")
    then set_events clock (command ∷ args)
    else if eq_ignore_ascii_case command (bytes "DEL")
    then del_events clock (command ∷ args)
    else if eq_ignore_ascii_case command (bytes "EXPIRE")
    then expire_events clock (command ∷ args)
    else if eq_ignore_ascii_case command (bytes "TTL")
    then ttl_events clock (command ∷ args)
    else []

unfoldable pub is_error_response : Bytes → Bool
unfolding starts_with
is_error_response response = starts_with 45 response

-- `observe_command_result` after the dispatch, with the log of the sink, if there is one
unfoldable pub observe :
    Bytes → List ObservationEvent → Option (List ObservationEvent) → Option (List ObservationEvent)
observe response events none = none
observe response events (some log) =
    if is_error_response response then some log else some (log ++ events)
