-- ===== src/Client/Retries.antt =====
-- The retry loop of hkv-client/src/client.rs: it runs its rounds, and gives back the slots of the
-- pool.
use hybird_kv.Prelude.{ℕ, suc, ◌+◌, ◌≤◌, ◌<◌, ◌≡◌, Bool, List, Bytes, Outcome, ret, ◌>>=◌, ltb}
use hybird_kv.Client.Error.{ClientResult, ok}
use hybird_kv.Client.Response.{RespValue}
use hybird_kv.Client.Connection.{Tcp, Connection}
use hybird_kv.Client.Pool.{PoolState, drop_pooled}
use hybird_kv.Client.Api.{KvClient, Attempt, attempt, retry_loop}
use hybird_kv.Client.Slots.{Accounted}
use hybird_kv.Client.Rounds.{acquired, Retried, Ends}

module _ {W S : Type 0} ⦃t : Tcp W S⦄ (item_size depth : ℕ) (c : KvClient S)
    (args : List Bytes) where
  module _ (fuel attempts : ℕ) (st : PoolState S) (w : W) where
    abbrev tried : Outcome (Attempt W S)
    tried = attempt item_size depth c args (ltb attempts c.max_retries) st w

    loop : Outcome (W × PoolState S × ClientResult RespValue)
    unfolding retry_loop
    loop = retry_loop item_size depth (suc fuel) c args attempts st w

  module _ (held fuel attempts : ℕ) (st0 st : PoolState S) (w0 w : W)
      (le : attempts ≤ c.max_retries)
      (retried : Retried item_size depth c args st0 w0 attempts st w)
      (next : (st1 : PoolState S) (w1 : W)
        → attempts < c.max_retries
        → Retried item_size depth c args st0 w0 (attempts + 1) st1 w1
        → Accounted c.config held st1
        → Ends item_size depth c args held st0 w0
            (retry_loop item_size depth fuel c args (attempts + 1) st1 w1)) where
    module _ (st' : PoolState S) (w' w'' : W) (conn conn' : Connection S) (valid : Bool)
        (got : acquired item_size depth c args st w ≡ ret (w', st', ok conn)) where
      left : PoolState S
      left = drop_pooled c.config valid conn' st'
