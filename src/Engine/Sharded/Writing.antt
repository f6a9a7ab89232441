-- ===== src/Engine/Sharded/Writing.antt =====
-- `write_value` on a valid engine (`set` and `set_with_ttl`): the key's cache gets the entry, then
-- the engine evicts.
use hybird_kv.Prelude.{
  ℕ, zero, suc, ◌+◌, ◌-◌, ◌<◌, ◌≤◌, ◌≡◌, refl, ◌∙◌, ap, subst, List, [], ◌∷◌, arith, Option, ret,
  Outcome, Bytes, set, length, length-append, inl, inr, ◌⊎◌, Bool-cases, ◌>>=◌, ◌==◌, ==_iff,
}
use hybird_kv.Engine.Word.{word}
use hybird_kv.Engine.HashMap.{HashMap}
use hybird_kv.Engine.Shard.Links.{Items}
use hybird_kv.Engine.Memory.{Locked, deadline_of, write_locked}
use hybird_kv.Engine.Memory.Cache
use hybird_kv.Engine.Memory.Cache.{Entry, without}
use hybird_kv.Engine.Memory.Contents.{view}
use hybird_kv.Engine.Memory.Writes.{write_locked-refines}
use hybird_kv.Engine.Sharded.{MemoryEngine, shard_index, on_shard, write_value, evict_if_needed}
use hybird_kv.Engine.Sharded.Routing.{IsValid, items_at, EngineYields, on_shard-refines}
use hybird_kv.Engine.Sharded.Methods.{shard_index-lt}
use hybird_kv.Engine.Sharded.Eviction.{Evicts, done, count_all}
use hybird_kv.Engine.Sharded.Budget.{NothingFrom, evict_loop-Settles}

length-view : (xs : Items) → length (view xs) ≡ length xs
length-view [] = refl
length-view (x ∷ xs) = ap suc (length-view xs)

length-without-le : (k : Bytes) (es : List Entry) → length (without k es) ≤ length es
unfolding without
length-without-le k [] = omega arith
length-without-le k (e ∷ es) = ground (arith, length-without-le k es)

length-write-le :
    (k v : Bytes) (x : Option ℕ) (es : List Entry) → length (Cache.write k v x es) ≤ length es + 1
unfolding Cache.write
length-write-le k v x es = omega (
  arith,
  length-append (without k es) (record { key = k; value = v; expires_at = x } ∷ []),
  length-without-le k es,
)

count-set-le :
    (xss : List Items) (i : ℕ) (ys : Items)
    → length ys ≤ length (items_at xss i) + 1
    → count_all (set xss i ys) ≤ count_all xss + 1
count-set-le [] i ys h = omega arith
count-set-le (xs ∷ xss) zero ys h = omega arith
count-set-le (xs ∷ xss) (suc i) ys h = omega (arith, count-set-le xss i ys h)

-- The write returns. The cache of shard `i` has got the entries `es`, least recently used entries
-- have been evicted after that, each while the engine was over its budget, and the engine is within
-- its budget, has no budget, or a scan over all shards has found nothing to evict.
pub record WritesThrough {Map : Type 0} ⦃m : HashMap Map⦄ (step : Outcome (MemoryEngine Map))
    (e : MemoryEngine Map) (xss : List Items) (i : ℕ) (es : List Entry) : Type 0 where
  pub state : MemoryEngine Map
  pub written : Items
  pub items : List Items
  pub returns : step ≡ ret state
  pub viewed : view written ≡ es
  pub evicts : Evicts e.max_bytes (set xss i written) items
  pub valid : IsValid state items
  pub stops :
      (e.max_bytes ≡ word - 1)
      ⊎ (state.used_bytes ≤ e.max_bytes)
      ⊎ ((start : ℕ) × NothingFrom items e.shard_mask start 0 (length state.shards))

module _ {Map : Type 0} ⦃m : HashMap Map⦄ (hash : Bytes → ℕ) (fuel latest now : ℕ)
    (key value : Bytes) (ttl x : Option ℕ) (e : MemoryEngine Map) (xss : List Items)
    (v : IsValid e xss) (h : deadline_of latest now ttl ≡ ret x)
    (enough : count_all xss + 1 < fuel) where
  abbrev shard_step : Locked Map → Outcome (Locked Map × Unit {0})
  shard_step l = do l' ← write_locked latest now key value ttl l; ret (l', tt {0})

  stored :
      EngineYields
        (on_shard e (shard_index hash e key) shard_step)
        e
        xss
        (shard_index hash e key)
        (Cache.write key value x (view (items_at xss (shard_index hash e key))), tt)
  stored =
      on_shard-refines e xss v (shard_index hash e key) shard_step
        (λ es. (Cache.write key value x es, tt)) (shard_index-lt hash now key e xss v)
        λ l xs other c.
          let w = write_locked-refines other latest now key value ttl x l xs h c in
          record {
            state = w.state;
            items = w.items;
            returns = rw w.returns;
            consistent = w.consistent;
            viewed = w.viewed;
          }

  abbrev target : List Entry
  target = Cache.write key value x (view (items_at xss (shard_index hash e key)))

  fuel_left : count_all (set xss (shard_index hash e key) stored.items) < fuel
  fuel_left =
      let i = shard_index hash e key in
      let more : length stored.items ≤ length (items_at xss i) + 1 = omega (
        arith,
        length-view stored.items,
        length-view (items_at xss i),
        ap (length {A = Entry}) stored.viewed,
        length-write-le key value x (view (items_at xss i)),
      ) in
      omega (arith, enough, count-set-le xss i stored.items more)

  -- `write_value` (`set` and `set_with_ttl`) on a valid engine, with a deadline that the platform
  -- can represent and with fuel for one more than the engine's entries, does not panic. The cache
  -- of the key's shard gets the entry, and what is dropped after that are least recently used
  -- entries of shards, each while the sizes of all entries, modulo 2^64, are over the budget, until
  -- the engine is within it or has nothing to drop.
  pub write_value-refines :
      WritesThrough
        (write_value hash fuel latest now key value ttl e)
        e
        xss
        (shard_index hash e key)
        target
  unfolding write_value evict_if_needed
  write_value-refines =
      let s = stored in
      let run =
        evict_loop-Settles fuel s.state (set xss (shard_index hash e key) s.items) fuel_left
          s.valid in
      elim (Bool-cases (e.max_bytes == word - 1)) [
        | inl unlimited ↦ record {
          state = s.state;
          written = s.items;
          items = set xss (shard_index hash e key) s.items;
          returns = rw s.returns (rw (ap (λ k. k == word - 1) s.same_limit ∙ unlimited));
          viewed = s.viewed;
          evicts = done _;
          valid = s.valid;
          stops = inl ((==_iff e.max_bytes (word - 1)).0 unlimited);
        }
        | inr limited ↦ record {
          state = run.state;
          written = s.items;
          items = run.items;
          returns = rw s.returns (rw (ap (λ k. k == word - 1) s.same_limit ∙ limited) run.returns);
          viewed = s.viewed;
          evicts =
              subst (λ k. Evicts k (set xss (shard_index hash e key) s.items) run.items)
                s.same_limit run.evicts;
          valid = run.valid;
          stops = inr (
              subst
                (λ k.
                  (run.state.used_bytes ≤ k)
                  ⊎ ((start : ℕ) × NothingFrom run.items e.shard_mask start 0
                        (length run.state.shards)))
                s.same_limit
                (subst
                  (λ k.
                    (run.state.used_bytes ≤ s.state.max_bytes)
                    ⊎ ((start : ℕ) × NothingFrom run.items k start 0 (length run.state.shards)))
                  s.same_mask run.stops));
        }
      ]
