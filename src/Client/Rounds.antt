-- ===== src/Client/Rounds.antt =====
-- The rounds of the retry loop of hkv-client/src/client.rs, by what the pool and the connection of
-- hkv-client/src/pool.rs do in each.
use hybird_kv.Prelude.{
  ℕ, suc, ◌+◌, ◌≤◌, ◌≡◌, Bool, true, false, ◌⊎◌, List, Bytes, Outcome, ret, panic, length,
}
use hybird_kv.Client.Error.{ClientError, ClientResult, ok, err}
use hybird_kv.Client.Response.{RespValue}
use hybird_kv.Client.Connection.{Tcp, Connection, retryable, fatal, answered, failed}
use hybird_kv.Client.Pool.{PoolState, acquire, exec_pooled, drop_pooled}
use hybird_kv.Client.Api.{KvClient, is_retryable_connect_error}
use hybird_kv.Client.Slots.{Accounted}

module _ {W S : Type 0} ⦃t : Tcp W S⦄ (item_size depth : ℕ) (c : KvClient S)
    (args : List Bytes) where
  -- A connection from the pool, after at most a health check of each idle one.
  abbrev pub acquired : PoolState S → W → Outcome (W × PoolState S × ClientResult (Connection S))
  acquired st w = acquire (suc (length st.idle)) c.config st w

  -- A number of rounds that failed, each in a way after which the command may be sent again: no
  -- connection could be opened, or none answered.
  pub data Retried (st0 : PoolState S) (w0 : W) : ℕ → PoolState S → W → Type 0 where
    first : Retried st0 w0 0 st0 w0
    unconnected :
        {n : ℕ} {st st' : PoolState S} {w w' : W} {e : ClientError}
        → Retried st0 w0 n st w
        → acquired st w ≡ ret (w', st', err e)
        → is_retryable_connect_error e ≡ true
        → Retried st0 w0 (n + 1) st' w'
    unanswered :
        {n : ℕ} {st st' : PoolState S} {w w' w'' : W} {conn conn' : Connection S} {valid : Bool}
        {e : ClientError}
        → Retried st0 w0 n st w
        → acquired st w ≡ ret (w', st', ok conn)
        → exec_pooled item_size depth args conn w' ≡ ret (w'', conn', valid, failed (retryable e))
        → Retried st0 w0 (n + 1) (drop_pooled c.config valid conn' st') w''

  -- The last round, after `n` others, and what the loop ends in.
  pub data Last (n : ℕ) (st : PoolState S) (w : W)
      : Outcome (W × PoolState S × ClientResult RespValue) → Type 0 where
    replied :
        {st' : PoolState S} {w' w'' : W} {conn conn' : Connection S} {valid : Bool}
        {value : RespValue}
        → acquired st w ≡ ret (w', st', ok conn)
        → exec_pooled item_size depth args conn w' ≡ ret (w'', conn', valid, answered value)
        → Last n st w (ret (w'', drop_pooled c.config valid conn' st', ok value))
    broken :
        {st' : PoolState S} {w' w'' : W} {conn conn' : Connection S} {valid : Bool}
        {e : ClientError}
        → acquired st w ≡ ret (w', st', ok conn)
        → exec_pooled item_size depth args conn w' ≡ ret (w'', conn', valid, failed (fatal e))
        → Last n st w (ret (w'', drop_pooled c.config valid conn' st', err e))
    exhausted :
        {st' : PoolState S} {w' w'' : W} {conn conn' : Connection S} {valid : Bool}
        {e : ClientError}
        → acquired st w ≡ ret (w', st', ok conn)
        → exec_pooled item_size depth args conn w' ≡ ret (w'', conn', valid, failed (retryable e))
        → n ≡ c.max_retries
        → Last n st w (ret (w'', drop_pooled c.config valid conn' st', err e))
    refused :
        {st' : PoolState S} {w' : W} {e : ClientError}
        → acquired st w ≡ ret (w', st', err e)
        → (is_retryable_connect_error e ≡ false) ⊎ (n ≡ c.max_retries)
        → Last n st w (ret (w', st', err e))
    panicked :
        {st' : PoolState S} {w' : W} {conn : Connection S}
        → acquired st w ≡ ret (w', st', ok conn)
        → exec_pooled item_size depth args conn w' ≡ panic
        → Last n st w panic

  -- The pool that the loop leaves is right, with the slots that others hold.
  abbrev pub Keeps : ℕ → Outcome (W × PoolState S × ClientResult RespValue) → Type 0
  Keeps held (ret (w, st, result)) = Accounted c.config held st
  Keeps held panic = Unit

  -- The run of the loop from a pool and a network.
  pub record Ends (held : ℕ) (st0 : PoolState S) (w0 : W)
      (run : Outcome (W × PoolState S × ClientResult RespValue)) : Type 0 where
    pub rounds : ℕ
    pub within : rounds ≤ c.max_retries
    pub st : PoolState S
    pub w : W
    pub retried : Retried st0 w0 rounds st w
    pub last : Last rounds st w run
    pub keeps : Keeps held run
