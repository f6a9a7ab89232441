-- ===== src/Client/Interleavings.antt =====
-- The pool of hkv-client/src/pool.rs between threads: every function on its state runs under the
-- lock, so a run of several threads is a sequence of these steps.
use hybird_kv.Prelude.{
  ℕ, suc, ◌+◌, ◌≤◌, ◌≡◌, refl, sym, ◌∙◌, ap, subst, true, Bool-cases, inl, inr, some, List, [], ◌∷◌,
  arith, length, leb,
}
use hybird_kv.Client.Connection.{PoolConfig, Connection}
use hybird_kv.Client.Pool.{PoolState, pop_idle, try_reserve, release_slot, return_connection}
use hybird_kv.Client.Pool
use hybird_kv.Client.Slots.{
  Accounted, try_reserve-full, try_reserve-room, reserved-Accounted, release_slot-Accounted,
  return_connection-Accounted, pop_idle-Accounted,
}

module _ {S : Type 0} (config : PoolConfig) where
  -- A step of some thread, with the slots that the threads hold before and after it: only a thread
  -- that holds a slot gives one back.
  pub data Step : PoolState S → ℕ → PoolState S → ℕ → Type 0 where
    popped :
        (held : ℕ) (st st' : PoolState S) (conn : Connection S)
        → pop_idle st ≡ (st', some conn)
        → Step st held st' (suc held)
    reserved :
        (held : ℕ) (st st' : PoolState S)
        → try_reserve config st ≡ (st', true)
        → Step st held st' (suc held)
    released : (held : ℕ) (st : PoolState S) → Step st (suc held) (release_slot st) held
    returned :
        (held : ℕ) (st : PoolState S) (conn : Connection S)
        → Step st (suc held) (return_connection config conn st) held

  -- What a run from the new pool reaches.
  pub data Reachable : PoolState S → ℕ → Type 0 where
    start : Reachable Pool.new_pool 0
    next :
        (st st' : PoolState S) (held held' : ℕ)
        → Reachable st held
        → Step st held st' held'
        → Reachable st' held'

  popped-Accounted :
      (held : ℕ) (idle : List (Connection S)) (n : ℕ) (st' : PoolState S) (conn : Connection S)
      → pop_idle (record { idle = idle; total = n }) ≡ (st', some conn)
      → Accounted config held (record { idle = idle; total = n })
      → Accounted config (suc held) st'
  unfolding pop_idle
  popped-Accounted held [] n st' conn e a = absurd (cc (ap (λ p. p.1) e))
  popped-Accounted held (first ∷ rest) n st' conn e a =
      subst (Accounted config (suc held)) (ap (λ p. p.0) e)
        (pop_idle-Accounted config held _ first rest refl a)

  Step-Accounted :
      (st st' : PoolState S) (held held' : ℕ)
      → Step st held st' held'
      → Accounted config held st
      → Accounted config held' st'
  Step-Accounted _ _ _ _ (popped held st st' conn e) a =
      popped-Accounted held st.idle st.total st' conn e a
  Step-Accounted _ _ _ _ (reserved held st st' e) a =
      elim (Bool-cases (leb config.max_total st.total)) [
        | inl full ↦ absurd (cc (ap (λ p. p.1) (sym (try_reserve-full config st full) ∙ e)))
        | inr room ↦
            subst (Accounted config (suc held))
              (ap (λ p. p.0) (sym (try_reserve-room config st room) ∙ e))
              (reserved-Accounted config held st a room)
      ]
  Step-Accounted _ _ _ _ (released held st) a = release_slot-Accounted config held st a
  Step-Accounted _ _ _ _ (returned held st conn) a =
      return_connection-Accounted config held conn st a

  -- In every state that threads reach from the new pool, in any order of their steps, `total` is
  -- the number of idle connections and of held slots, there are at most `max_total` of both
  -- together and at most `max_idle` idle ones.
  pub Reachable-Accounted :
      (st : PoolState S) (held : ℕ)
      → Reachable st held
      → (st.total ≡ length st.idle + held)
        × (length st.idle + held ≤ config.max_total)
        × (length st.idle ≤ config.max_idle)
  Reachable-Accounted st held r =
      let a = accounted st held r in (a.counted, omega (arith, a.counted, a.within), a.idle_within)
    where
      accounted : (st : PoolState S) (held : ℕ) → Reachable st held → Accounted config held st
      accounted _ _ start = record {
        counted = refl;
        within = omega arith;
        idle_within = omega arith;
      }
      accounted _ _ (next st st' held held' r s) =
          Step-Accounted st st' held held' s (accounted st held r)
