-- ===== src/Client/Slots.antt =====
-- How the pool of hkv-client/src/pool.rs counts its connections, in one thread and between threads.
use hybird_kv.Prelude.{
  ℕ, zero, suc, ◌+◌, ◌-◌, ◌≤◌, ◌<◌, ◌≡◌, refl, sym, ap, subst, Bool, true, false, Bool-cases, inl,
  inr, List, [], ◌∷◌, ◌++◌, Outcome, ret, arith, length, length-append, ltb, leb,
}
use hybird_kv.Client.Error.{pool_exhausted, ClientResult, ok, err}
use hybird_kv.Client.Connection.{Tcp, PoolConfig, Connection, connect, is_healthy}
use hybird_kv.Client.Pool.{
  PoolState, pop_idle, try_reserve, release_slot, return_connection, drop_pooled, on_connect,
  on_reserve, on_health, on_popped, acquire,
}

-- `total` counts the idle connections and the `held` slots that are with callers, within the
-- limits.
pub record Accounted {S : Type 0} (config : PoolConfig) (held : ℕ) (st : PoolState S) : Type 0 where
  pub counted : st.total ≡ length st.idle + held
  pub within : st.total ≤ config.max_total
  pub idle_within : length st.idle ≤ config.max_idle

module _ {S : Type 0} (config : PoolConfig) where
  pub try_reserve-full :
      (st : PoolState S)
      → leb config.max_total st.total ≡ true
      → try_reserve config st ≡ (st, false)
  unfolding try_reserve
  try_reserve-full st h = rw (h, try_reserve) refl

  pub try_reserve-room :
      (st : PoolState S)
      → leb config.max_total st.total ≡ false
      → try_reserve config st ≡ (record st { total = st.total + 1 }, true)
  unfolding try_reserve
  try_reserve-room st h = rw (h, try_reserve) refl

  pub reserved-Accounted :
      (held : ℕ) (st : PoolState S)
      → Accounted config held st
      → leb config.max_total st.total ≡ false
      → Accounted config (suc held) (record st { total = st.total + 1 })
  reserved-Accounted held st a h = record {
    counted = omega (arith, a.counted);
    within = ground (arith, h);
    idle_within = a.idle_within;
  }

  pub same_held :
      (held k : ℕ) (st : PoolState S) → k ≡ held → Accounted config k st → Accounted config held st
  same_held held k st e a = subst (λ n. Accounted config n st) e a

  pub release_slot-Accounted :
      (held : ℕ) (st : PoolState S)
      → Accounted config (suc held) st
      → Accounted config held (release_slot st)
  unfolding release_slot
  release_slot-Accounted held st a = record {
    counted = omega (arith, a.counted);
    within = omega (arith, a.within);
    idle_within = a.idle_within;
  }

  return_connection-room :
      (conn : Connection S) (st : PoolState S)
      → ltb (length st.idle) config.max_idle ≡ true
      → return_connection config conn st ≡ record st { idle = st.idle ++ conn ∷ [] }
  unfolding return_connection
  return_connection-room conn st h = rw (h, return_connection) refl

  return_connection-full :
      (conn : Connection S) (st : PoolState S)
      → ltb (length st.idle) config.max_idle ≡ false
      → return_connection config conn st ≡ record st { total = st.total - 1 }
  unfolding return_connection
  return_connection-full conn st h = rw (h, return_connection) refl

  pub return_connection-Accounted :
      (held : ℕ) (conn : Connection S) (st : PoolState S)
      → Accounted config (suc held) st
      → Accounted config held (return_connection config conn st)
  return_connection-Accounted held conn st a =
      let n : length (st.idle ++ conn ∷ []) ≡ length st.idle + 1 =
        length-append st.idle (conn ∷ []) in
      elim (Bool-cases (ltb (length st.idle) config.max_idle)) [
        | inl room ↦
            subst (Accounted config held) (sym (return_connection-room conn st room)) (record {
              counted = omega (arith, a.counted, n);
              within = a.within;
              idle_within = ground (arith, room, n);
            })
        | inr full ↦
            subst (Accounted config held) (sym (return_connection-full conn st full)) (record {
              counted = omega (arith, a.counted);
              within = omega (arith, a.within);
              idle_within = a.idle_within;
            })
      ]

  pub pop_idle-Accounted :
      (held : ℕ) (st : PoolState S) (conn : Connection S) (rest : List (Connection S))
      → st.idle ≡ conn ∷ rest
      → Accounted config held st
      → Accounted config (suc held) (record st { idle = rest })
  pop_idle-Accounted held st conn rest e a =
      let n : length st.idle ≡ suc (length rest) = ap (length {A = Connection S}) e in
      record {
        counted = omega (arith, a.counted, n);
        within = a.within;
        idle_within = omega (arith, a.idle_within, n);
      }

  pub drop_pooled-Accounted :
      (held : ℕ) (valid : Bool) (conn : Connection S) (st : PoolState S)
      → Accounted config (suc held) st
      → Accounted config held (drop_pooled config valid conn st)
  unfolding drop_pooled
  drop_pooled-Accounted held true conn st a = return_connection-Accounted held conn st a
  drop_pooled-Accounted held false conn st a = release_slot-Accounted held st a

-- How many slots a result of `acquire` hands to the caller.
abbrev pub taken : {A : Type 0} → ClientResult A → ℕ
taken (ok _) = 1
taken (err _) = 0

module _ {W S : Type 0} ⦃t : Tcp W S⦄ (config : PoolConfig) where
  -- A run of `acquire` that keeps the account.
  pub record Acquired (held : ℕ) (run : Outcome (W × PoolState S × ClientResult (Connection S)))
      : Type 0 where
    pub net : W
    pub left : PoolState S
    pub result : ClientResult (Connection S)
    pub returns : run ≡ ret (net, left, result)
    pub account : Accounted config (held + taken result) left

  on_connect-Acquired :
      (held : ℕ) (st : PoolState S) (opened : W × ClientResult (Connection S))
      → Accounted config (suc held) st
      → Acquired held (ret (on_connect st opened))
  unfolding on_connect
  on_connect-Acquired held st (w, ok conn) a = record {
    net = w;
    left = st;
    result = ok conn;
    returns = refl;
    account = same_held config _ _ st (omega arith) a;
  }
  on_connect-Acquired held st (w, err e) a = record {
    net = w;
    left = release_slot st;
    result = err e;
    returns = refl;
    account =
        same_held config _ _ (release_slot st) (omega arith)
          (release_slot-Accounted config held st a);
  }

  on_reserve-Acquired :
      (held : ℕ) (st : PoolState S) (w : W)
      → Accounted config held st
      → Acquired held (ret (on_reserve config w (try_reserve config st)))
  unfolding on_reserve
  on_reserve-Acquired held st w a = elim (Bool-cases (leb config.max_total st.total)) [
    | inl full ↦
        subst (λ reserved. Acquired held (ret (on_reserve config w reserved)))
          (sym (try_reserve-full config st full))
          (record {
            net = w;
            left = st;
            result = err pool_exhausted;
            returns = refl;
            account = same_held config _ _ st (omega arith) a;
          })
    | inr room ↦
        subst (λ reserved. Acquired held (ret (on_reserve config w reserved)))
          (sym (try_reserve-room config st room))
          (on_connect-Acquired held _ (connect config w) (reserved-Accounted config held st a room))
  ]

  on_health-Acquired :
      (held : ℕ) (again : PoolState S → W → Outcome (W × PoolState S × ClientResult (Connection S)))
      (conn : Connection S) (st : PoolState S) (checked : W × Bool)
      → Accounted config (suc held) st
      → ((w : W) → Acquired held (again (release_slot st) w))
      → Acquired held (on_health again conn st checked)
  unfolding on_health
  on_health-Acquired held again conn st (w1, true) a ih = record {
    net = w1;
    left = st;
    result = ok conn;
    returns = refl;
    account = same_held config _ _ st (omega arith) a;
  }
  on_health-Acquired held again conn st (w1, false) a ih = ih w1

  acquire_idle :
      (fuel held : ℕ) (idle : List (Connection S)) (n : ℕ) (w : W)
      → length idle < fuel
      → Accounted config held (record { idle = idle; total = n })
      → Acquired held (acquire fuel config (record { idle = idle; total = n }) w)
  unfolding acquire on_popped pop_idle release_slot
  acquire_idle zero held idle n w h a = elim h [ ]
  acquire_idle (suc fuel) held [] n w h a =
      on_reserve-Acquired held (record { idle = []; total = n }) w a
  acquire_idle (suc fuel) held (conn ∷ rest) n w h a =
      let st : PoolState S = record { idle = conn ∷ rest; total = n } in
      let a1 : Accounted config (suc held) (record { idle = rest; total = n }) =
        pop_idle-Accounted config held st conn rest refl a in
      on_health-Acquired held (acquire fuel config) conn (record { idle = rest; total = n })
        (is_healthy conn w) a1
        (λ w1.
          acquire_idle fuel held rest (n - 1) w1 (omega arith)
            (release_slot-Accounted config held _ a1))

  -- The pool's account is right, with `held` slots with callers. Then `acquire` returns after at
  -- most one round for each idle connection and one more, whatever the network does, and the
  -- account is right again: with one slot more if it gives a connection, and as before if it fails.
  pub acquire-Acquired :
      (fuel held : ℕ) (st : PoolState S) (w : W)
      → length st.idle < fuel
      → Accounted config held st
      → Acquired held (acquire fuel config st w)
  acquire-Acquired fuel held st w h a = acquire_idle fuel held st.idle st.total w h a
