-- ===== src/Client/Tests.antt =====
-- The client at concrete replies, connections and engines.
use hybird_kv.Prelude.{
  ◌+◌, ◌≤◌, ◌≡◌, refl, ap, Outcome, ◌>>=◌, ℕ, suc, Bool, true, false, ◌&&◌, none, some, [], ◌∷◌,
  ◌++◌, Bytes, bytes, bytes_eq, ret, arith, if◌then◌else◌,
}
use hybird_kv.Common.Types
use hybird_kv.Common.Error.{not_found}
use hybird_kv.Engine.Memory
use hybird_kv.Wire.Decimal.{push_usize, digits_from}
use hybird_kv.Server.Commands.{KvEngine, nanos, dispatch_command}
use hybird_kv.Server.Commands
use hybird_kv.Server.Respond.{resp, resp_bulk, to_string}
use hybird_kv.Client.Error.{broken_pipe, would_block, io, ok, err}
use hybird_kv.Client.Response.{read_response}
use hybird_kv.Client.Answers.{value_of, resp-read_response}
use hybird_kv.Client.Connection.{Tcp, PoolConfig, Connection}
use hybird_kv.Client.Pool.{
  PoolState, try_reserve, return_connection, release_slot, acquire, exec_pooled,
}
use hybird_kv.Client.Pool
use hybird_kv.Client.Slots.{Accounted, Acquired, acquire-Acquired}
use hybird_kv.Client.Interleavings.{reserved, returned, Reachable, start, next, Reachable-Accounted}
use hybird_kv.Client.Api.{
  KvClient, encode_u64, get_result, set_result, delete_result, expire_result, ttl_result,
}
use hybird_kv.Client.Agreement.{
  seen, told, reported, applied, in_seconds, commands-told, timed_commands-told,
}

written : resp (Commands.bulk (bytes "hi")) ≡ ret (bytes "$2\r\nhi\r\n")
unfolding resp resp_bulk to_string push_usize digits_from
written = refl

-- a bulk string, with another reply behind it
resp-read_response_example :
    (buffer : Bytes) × (read_response 32 1 (record {
      input = bytes "$2\r\nhi\r\n" ++ bytes "+OK";
      failure = none;
      line_buf = bytes "old";
    })
      ≡ ret (
        record { input = bytes "+OK"; failure = none; line_buf = buffer },
        ok (value_of (Commands.bulk (bytes "hi"))),
      ))
resp-read_response_example =
    resp-read_response (Commands.bulk (bytes "hi")) (bytes "$2\r\nhi\r\n") (bytes "+OK")
      (bytes "old") none 32 0 (omega arith) written

-- A network on which every connection is set up, and breaks at the first write.
instance broken : Tcp Unit Unit
broken = record {
  parse_addr = λ addr. some 0;
  connect_addr = λ timeout addr w. (w, ok tt);
  set_read_timeout = λ timeout s w. (w, none);
  set_write_timeout = λ timeout s w. (w, none);
  set_nodelay = λ s w. (w, none);
  set_nonblocking = λ on s w. (w, none);
  peek = λ s w. (w, err (io would_block));
  write_all = λ bs s w. (w, some broken_pipe);
  flush = λ s w. (w, none);
  receive = λ s w. (w, [], none);
}

-- The same network, but for a peer that answers each command.
abbrev answering : Tcp Unit Unit
answering = record broken {
  write_all = λ bs s w. (w, none);
  receive = λ s w. (w, bytes "+PONG\r\n", none);
}

abbrev config : PoolConfig
config = record {
  addr = bytes "h:1";
  max_idle = 1;
  max_total = 2;
  read_timeout = none;
  write_timeout = none;
  connect_timeout = none;
}

abbrev connection : Connection Unit
connection = record { stream = tt; buffer = []; line_buf = []; write_buf = [] }

abbrev one_idle : PoolState Unit
one_idle = record { idle = connection ∷ []; total = 2 }

one_idle-Accounted : Accounted config 1 one_idle
one_idle-Accounted = record { counted = refl; within = omega arith; idle_within = omega arith }

acquire-Acquired_example : Acquired config 1 (acquire 2 config one_idle tt)
unfolding broken
acquire-Acquired_example = acquire-Acquired config 2 1 one_idle tt (omega arith) one_idle-Accounted

abbrev kv_client : KvClient Unit
kv_client = record { config = config; pool = one_idle; max_retries = 1 }

two_steps :
    Reachable config (return_connection config connection (record { idle = []; total = 1 })) 0
unfolding try_reserve
two_steps =
    next _ _ _ _
      (next _ _ _ _ start (reserved 0 Pool.new_pool (record { idle = []; total = 1 }) refl))
      (returned 0 (record { idle = []; total = 1 }) connection)

Reachable-Accounted_example : (1 ≡ 1 + 0) × (1 + 0 ≤ 2) × (1 ≤ 1)
unfolding return_connection
Reachable-Accounted_example = Reachable-Accounted config _ 0 two_steps

-- An engine that can hold one key, always with the same value.
instance one_key : KvEngine Bool
one_key = record {
  get = λ k e. ret (e, Types.ok (if bytes_eq k (bytes "k") && e then some (bytes "v") else none));
  set = λ k v e. ret (if bytes_eq k (bytes "k") then true else e, Types.ok tt);
  set_with_ttl = λ k v d e. ret (if bytes_eq k (bytes "k") then true else e, Types.ok tt);
  delete = λ k e.
      ret (if bytes_eq k (bytes "k") then false else e, Types.ok (bytes_eq k (bytes "k") && e));
  expire =
      λ k d e. ret (e, if bytes_eq k (bytes "k") && e then Types.ok tt else Types.err not_found);
  ttl = λ k e.
      ret (e, Types.ok (if bytes_eq k (bytes "k") && e then Memory.no_expiry else Memory.missing));
}

abbrev ttl_of : Outcome (Bool × Types.HkvResult Memory.TtlStatus) → ℕ
ttl_of (ret (_, Types.ok (Memory.expires_in n))) = suc n
ttl_of _ = 0

commands-told_example :
    (seen get_result (dispatch_command [] (bytes "GET" ∷ bytes "k" ∷ []) true)
      ≡ told reported (one_key.get (bytes "k") true))
    × (seen set_result (dispatch_command [] (bytes "SET" ∷ bytes "k" ∷ bytes "v" ∷ []) true)
        ≡ told reported (one_key.set (bytes "k") (bytes "v") true))
    × (seen delete_result (dispatch_command [] (bytes "DEL" ∷ bytes "k" ∷ []) true)
        ≡ told reported (one_key.delete (bytes "k") true))
    × (seen ttl_result (dispatch_command [] (bytes "TTL" ∷ bytes "k" ∷ []) true)
        ≡ told in_seconds (one_key.ttl (bytes "k") true))
unfolding bytes_eq one_key
commands-told_example =
    commands-told [] (bytes "k") (bytes "v") true
      (λ e' n h. let e : 0 ≡ suc n = ap ttl_of h in absurd (omega arith))

sixty : encode_u64 60 ≡ ret (bytes "60")
unfolding encode_u64 digits_from
sixty = refl

timed_commands-told_example :
    (seen set_result (
        dispatch_command []
          (bytes "SET" ∷ bytes "k" ∷ bytes "v" ∷ bytes "EX" ∷ bytes "60" ∷ [])
          false)
      ≡ told reported (one_key.set_with_ttl (bytes "k") (bytes "v") (nanos 60) false))
    × (seen expire_result (dispatch_command [] (bytes "EXPIRE" ∷ bytes "k" ∷ bytes "60" ∷ []) false)
        ≡ told applied (one_key.expire (bytes "k") (nanos 60) false))
timed_commands-told_example =
    timed_commands-told [] (bytes "k") (bytes "v") (bytes "60") 60 false (omega arith) sixty
