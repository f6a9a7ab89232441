-- ===== src/Client/Api.antt =====
-- hkv-client/src/client.rs: the commands of the client.
use hybird_kv.Prelude.{
  ℕ, zero, suc, ◌+◌, ◌*◌, ◌/◌, Bool, true, false, ◌&&◌, Option, none, some, List, [], ◌∷◌, reverse,
  Bytes, bytes, Outcome, ret, panic, ◌>>=◌, length, ltb, ◌==◌, if◌then◌else◌,
}
use hybird_kv.Prelude.Int.{ℤ, pos, negsuc}
use hybird_kv.Wire.Decimal.{digits_from}
use hybird_kv.Client.Error.{
  ErrorKind, connection_refused, connection_reset, connection_aborted, not_connected, timed_out,
  interrupted, ClientError, io, server, unexpected_response, ClientResult, ok, err,
}
use hybird_kv.Client.Response.{RespValue, simple, error, integer, bulk}
use hybird_kv.Client.Connection.{
  Tcp, PoolConfig, Connection, retryable, ExecResult, answered, failed, into_client_error,
}
use hybird_kv.Client.Pool.{PoolState, acquire, exec_pooled, drop_pooled}

-- durations in nanoseconds
pub data ClientTtl : Type 0 where
  missing no_expiry : ClientTtl
  expires_in : ℕ → ClientTtl

-- The pool's configuration and `max_retries` are those that `with_config` takes from
-- `ClientConfig`.
pub record KvClient (S : Type 0) : Type 0 where
  pub config : PoolConfig
  pub pool : PoolState S
  pub max_retries : ℕ

unfoldable pub is_retryable_kind : ErrorKind → Bool
is_retryable_kind connection_refused = true
is_retryable_kind connection_reset = true
is_retryable_kind connection_aborted = true
is_retryable_kind not_connected = true
is_retryable_kind timed_out = true
is_retryable_kind interrupted = true
is_retryable_kind _ = false

unfoldable pub is_retryable_connect_error : ClientError → Bool
unfolding is_retryable_kind
is_retryable_connect_error (io kind) = is_retryable_kind kind
is_retryable_connect_error _ = false

-- the digits `&seconds[..len]`
unfoldable pub encode_u64 : ℕ → Outcome Bytes
encode_u64 value =
    if value == 0 then ret (48 ∷ []) else (do ds ← digits_from 20 value; ret (reverse ds))

-- the `match` of each command on its response
unfoldable pub get_result : RespValue → ClientResult (Option Bytes)
get_result (bulk found) = ok found
get_result (error message) = err (server message)
get_result _ = err unexpected_response

unfoldable pub set_result : RespValue → ClientResult Unit
set_result (simple _) = ok tt
set_result (error message) = err (server message)
set_result _ = err unexpected_response

-- `count > 0`
unfoldable pub positive : ℤ → Bool
positive (pos n) = ltb 0 n
positive (negsuc _) = false

unfoldable pub delete_result : RespValue → ClientResult Bool
unfolding positive
delete_result (integer count) = ok (positive count)
delete_result (error message) = err (server message)
delete_result _ = err unexpected_response

-- `value == 1`
unfoldable pub is_one : ℤ → Bool
is_one (pos n) = n == 1
is_one (negsuc _) = false

unfoldable pub expire_result : RespValue → ClientResult Bool
unfolding is_one
expire_result (integer value) = ok (is_one value)
expire_result (error message) = err (server message)
expire_result _ = err unexpected_response

unfoldable pub ttl_result : RespValue → ClientResult ClientTtl
ttl_result (integer (negsuc zero)) = ok no_expiry
ttl_result (integer (negsuc (suc zero))) = ok missing
ttl_result (integer (pos seconds)) = ok (expires_in (seconds * 1000000000))
ttl_result (error message) = err (server message)
ttl_result _ = err unexpected_response

unfoldable pub ping_result : RespValue → ClientResult Bytes
ping_result (simple text) = ok text
ping_result (bulk (some payload)) = ok payload
ping_result (error message) = err (server message)
ping_result _ = err unexpected_response

unfoldable pub info_result : RespValue → ClientResult Bytes
info_result (bulk (some payload)) = ok payload
info_result (error message) = err (server message)
info_result _ = err unexpected_response

-- What a round of the loop of `exec_with_retry` does.
pub data Attempt (W S : Type 0) : Type 0 where
  again : W → PoolState S → Attempt W S
  done : W → PoolState S → ClientResult RespValue → Attempt W S

-- the `match` on the response of `exec`, with the pool after the connection is dropped
unfoldable pub on_response : {W S : Type 0} → Bool → W → PoolState S → ExecResult → Attempt W S
on_response may_retry w st (answered value) = done w st (ok value)
on_response true w st (failed (retryable e)) = again w st
on_response _ w st (failed e) = done w st (err (into_client_error e))

module _ {W S : Type 0} ⦃t : Tcp W S⦄ (item_size depth : ℕ) where
  -- the round after `acquire` gave a connection, which is dropped at its end
  unfoldable pub attempt_exec :
      KvClient S → List Bytes → Bool → Connection S → PoolState S → W → Outcome (Attempt W S)
  attempt_exec c args may_retry conn st w = do
    (w', conn', valid, response) ← exec_pooled item_size depth args conn w
    let st' = drop_pooled c.config valid conn' st
    ret (on_response may_retry w' st' response)

  -- the round, by the result of `acquire`
  unfoldable pub attempt_with :
      KvClient S
      → List Bytes
      → Bool
      → W × PoolState S × ClientResult (Connection S)
      → Outcome (Attempt W S)
  attempt_with c args may_retry (w, st, err e) =
      ret (if may_retry && is_retryable_connect_error e then again w st else done w st (err e))
  attempt_with c args may_retry (w, st, ok conn) = attempt_exec c args may_retry conn st w

  -- one round; `acquire` runs at most once for each idle connection and once more
  unfoldable pub attempt : KvClient S → List Bytes → Bool → PoolState S → W → Outcome (Attempt W S)
  attempt c args may_retry st w = do
    acquired ← acquire (suc (length st.idle)) c.config st w
    attempt_with c args may_retry acquired

  -- the loop of `exec_with_retry`, for `fuel` rounds at most
  unfoldable pub retry_loop :
      ℕ
      → KvClient S
      → List Bytes
      → ℕ
      → PoolState S
      → W
      → Outcome (W × PoolState S × ClientResult RespValue)
  retry_loop zero c args attempts st w = panic
  retry_loop (suc fuel) c args attempts st w = do
    tried ← attempt c args (ltb attempts c.max_retries) st w
    elim tried [
      | again w' st' ↦ retry_loop fuel c args (attempts + 1) st' w'
      | done w' st' result ↦ ret (w', st', result)
    ]

  unfoldable pub exec_with_retry :
      KvClient S → List Bytes → W → Outcome (W × KvClient S × ClientResult RespValue)
  exec_with_retry c args w = do
    (w', st, result) ← retry_loop (suc c.max_retries) c args 0 c.pool w
    ret (w', record c { pool = st }, result)

  -- `exec_with_retry(args)?`, then the `match` on the response
  abbrev pub command :
      {A : Type 0}
      → (RespValue → ClientResult A)
      → KvClient S
      → List Bytes
      → W
      → Outcome (W × KvClient S × ClientResult A)
  command on_response c args w = do
    (w', c', result) ← exec_with_retry c args w
    ret (w', c', elim result [ ok response ↦ on_response response | err e ↦ err e ])

  unfoldable pub get :
      Bytes → KvClient S → W → Outcome (W × KvClient S × ClientResult (Option Bytes))
  get key c w = command get_result c (bytes "GET" ∷ key ∷ []) w

  unfoldable pub set : Bytes → Bytes → KvClient S → W → Outcome (W × KvClient S × ClientResult Unit)
  set key value c w = command set_result c (bytes "SET" ∷ key ∷ value ∷ []) w

  unfoldable pub set_with_ttl :
      Bytes → Bytes → ℕ → KvClient S → W → Outcome (W × KvClient S × ClientResult Unit)
  set_with_ttl key value ttl c w = do
    seconds ← encode_u64 (ttl / 1000000000)
    command set_result c (bytes "SET" ∷ key ∷ value ∷ bytes "EX" ∷ seconds ∷ []) w

  unfoldable pub delete : Bytes → KvClient S → W → Outcome (W × KvClient S × ClientResult Bool)
  delete key c w = command delete_result c (bytes "DEL" ∷ key ∷ []) w

  unfoldable pub expire : Bytes → ℕ → KvClient S → W → Outcome (W × KvClient S × ClientResult Bool)
  expire key ttl c w = do
    seconds ← encode_u64 (ttl / 1000000000)
    command expire_result c (bytes "EXPIRE" ∷ key ∷ seconds ∷ []) w

  unfoldable pub ttl : Bytes → KvClient S → W → Outcome (W × KvClient S × ClientResult ClientTtl)
  ttl key c w = command ttl_result c (bytes "TTL" ∷ key ∷ []) w

  unfoldable pub ping :
      Option Bytes → KvClient S → W → Outcome (W × KvClient S × ClientResult Bytes)
  ping (some payload) c w = command ping_result c (bytes "PING" ∷ payload ∷ []) w
  ping none c w = command ping_result c (bytes "PING" ∷ []) w

  unfoldable pub info : KvClient S → W → Outcome (W × KvClient S × ClientResult Bytes)
  info c w = command info_result c (bytes "INFO" ∷ []) w
