-- ===== src/Client/Pool.antt =====
-- hkv-client/src/pool.rs: the pool of connections. The functions on `PoolState` each run under the
-- pool's lock.
use hybird_kv.Prelude.{
  ℕ, zero, suc, ◌+◌, ◌-◌, Bool, true, false, Option, none, some, List, [], ◌∷◌, ◌++◌, Outcome, ret,
  panic, ◌>>=◌, length, ltb, leb, Bytes,
}
use hybird_kv.Client.Error.{pool_exhausted, ClientResult, ok, err}
use hybird_kv.Client.Connection.{
  Tcp, PoolConfig, Connection, ExecResult, answered, failed, connect, exec, is_healthy,
}

-- the idle connections, the front of the queue first
pub record PoolState (S : Type 0) : Type 0 where
  pub idle : List (Connection S)
  pub total : ℕ

module _ {S : Type 0} where
  abbrev pub new_pool : PoolState S
  new_pool = record { idle = []; total = 0 }

  unfoldable pub pop_idle : PoolState S → PoolState S × Option (Connection S)
  pop_idle st = elim st.idle [
    | [] ↦ (st, none)
    | conn ∷ rest ↦ (record st { idle = rest }, some conn)
  ]

  unfoldable pub try_reserve : PoolConfig → PoolState S → PoolState S × Bool
  try_reserve config st = elim (leb config.max_total st.total) [
    | true ↦ (st, false)
    | false ↦ (record st { total = st.total + 1 }, true)
  ]

  unfoldable pub release_slot : PoolState S → PoolState S
  release_slot st = record st { total = st.total - 1 }

  unfoldable pub return_connection : PoolConfig → Connection S → PoolState S → PoolState S
  return_connection config conn st = elim (ltb (length st.idle) config.max_idle) [
    | true ↦ record st { idle = st.idle ++ conn ∷ [] }
    | false ↦ record st { total = st.total - 1 }
  ]

  -- `PooledConnection::drop`
  unfoldable pub drop_pooled : PoolConfig → Bool → Connection S → PoolState S → PoolState S
  drop_pooled config true conn st = return_connection config conn st
  drop_pooled config false conn st = release_slot st

module _ {W S : Type 0} ⦃t : Tcp W S⦄ where
  -- the result of `Connection::connect` for a reserved slot
  unfoldable pub on_connect :
      PoolState S → W × ClientResult (Connection S) → W × PoolState S × ClientResult (Connection S)
  on_connect st (w, ok conn) = (w, st, ok conn)
  on_connect st (w, err e) = (w, release_slot st, err e)

  -- `acquire` after `try_reserve`
  unfoldable pub on_reserve :
      PoolConfig → W → PoolState S × Bool → W × PoolState S × ClientResult (Connection S)
  unfolding on_connect
  on_reserve config w (st, false) = (w, st, err pool_exhausted)
  on_reserve config w (st, true) = on_connect st (connect config w)

  -- `acquire` after the health check of an idle connection, with `again` for `continue`
  unfoldable pub on_health :
      (PoolState S → W → Outcome (W × PoolState S × ClientResult (Connection S)))
      → Connection S
      → PoolState S
      → W × Bool
      → Outcome (W × PoolState S × ClientResult (Connection S))
  on_health again conn st (w, true) = ret (w, st, ok conn)
  on_health again conn st (w, false) = again (release_slot st) w

  -- `acquire` after `pop_idle`
  unfoldable pub on_popped :
      (PoolState S → W → Outcome (W × PoolState S × ClientResult (Connection S)))
      → PoolConfig
      → W
      → PoolState S × Option (Connection S)
      → Outcome (W × PoolState S × ClientResult (Connection S))
  unfolding on_health on_reserve
  on_popped again config w (st, none) = ret (on_reserve config w (try_reserve config st))
  on_popped again config w (st, some conn) = on_health again conn st (is_healthy conn w)

  -- `acquire`, for `fuel` rounds of its loop at most
  unfoldable pub acquire :
      ℕ → PoolConfig → PoolState S → W → Outcome (W × PoolState S × ClientResult (Connection S))
  unfolding on_popped
  acquire zero config st w = panic
  acquire (suc fuel) config st w = on_popped (acquire fuel config) config w (pop_idle st)

  -- `PooledConnection::exec`: the connection is valid after it if there is a response
  unfoldable pub exec_pooled :
      ℕ → ℕ → List Bytes → Connection S → W → Outcome (W × Connection S × Bool × ExecResult)
  exec_pooled item_size depth args conn w = do
    (w', conn', response) ← exec item_size depth args conn w
    ret (w', conn', elim response [ answered _ ↦ true | failed _ ↦ false ], response)
