-- ===== src/Engine/Sharded/Methods.antt =====
-- The methods of `KVEngine` on a valid engine: the shard that the key is routed to does what a
-- cache does, and the caches of the other shards stay as they are.
use Prim.Native.Nat.{bit_and, bit_and-bitwise, digits}
use hybird_kv.Prelude.{
  ℕ, zero, suc, ◌/◌, ◌<◌, ◌≤◌, ◌≡◌, subst, sym, arith, ret, Bytes, List, length, min,
}
use hybird_kv.Engine.HashMap.{HashMap}
use hybird_kv.Engine.Shard.Links.{Items}
use hybird_kv.Engine.Memory.{deadline_from, get_locked, delete_locked, ttl_locked, expire_locked}
use hybird_kv.Engine.Memory.Cache
use hybird_kv.Engine.Memory.Contents.{view}
use hybird_kv.Engine.Memory.Reads.{get_locked-refines, delete_locked-refines, ttl_locked-refines}
use hybird_kv.Engine.Memory.Writes.{expire_locked-refines}
use hybird_kv.Engine.Sharded.{MemoryEngine, shard_index, get, delete, ttl, expire}
use hybird_kv.Engine.Sharded.Routing.{IsValid, items_at, EngineYields, on_shard-refines}

-- The bits of a conjunction are among those of the mask.
digits-le : (n a b : ℕ) → digits (λ b. zero) min n a b ≤ b
digits-le zero a b = omega arith
digits-le (suc n) zero b = omega arith
digits-le (suc n) (suc a) b = omega (arith, digits-le n (suc a / 2) (b / 2))

pub bit_and-le : (a b : ℕ) → bit_and a b ≤ b
bit_and-le a b = subst (λ t. t ≤ b) (sym (bit_and-bitwise a b)) (digits-le a a b)

module _ {Map : Type 0} ⦃m : HashMap Map⦄ (hash : Bytes → ℕ) (now : ℕ) (key : Bytes)
    (e : MemoryEngine Map) (xss : List Items) (v : IsValid e xss) where
  -- The key is routed to a shard that is there.
  pub shard_index-lt : shard_index hash e key < length e.shards
  unfolding shard_index
  shard_index-lt = omega (arith, v.masked, bit_and-le (hash key) e.shard_mask)

  -- `get` on a valid engine does not panic, is the `get` of the cache of the key's shard, leaves
  -- the other caches alone, and keeps the engine valid.
  pub get-refines :
      EngineYields
        (get hash now key e)
        e
        xss
        (shard_index hash e key)
        (Cache.get now key (view (items_at xss (shard_index hash e key))))
  unfolding get
  get-refines =
      on_shard-refines e xss v (shard_index hash e key) (get_locked now key) (Cache.get now key)
        shard_index-lt (λ l xs other c. get_locked-refines now l other key xs c)

  -- `delete` on a valid engine does not panic, is the `delete` of the cache of the key's shard,
  -- leaves the other caches alone, and keeps the engine valid.
  pub delete-refines :
      EngineYields
        (delete hash now key e)
        e
        xss
        (shard_index hash e key)
        (Cache.delete now key (view (items_at xss (shard_index hash e key))))
  unfolding delete
  delete-refines =
      on_shard-refines e xss v (shard_index hash e key) (delete_locked now key)
        (Cache.delete now key) shard_index-lt
        (λ l xs other c. delete_locked-refines now l other key xs c)

  -- `ttl` on a valid engine does not panic, is the `ttl` of the cache of the key's shard, leaves
  -- the other caches alone, and keeps the engine valid.
  pub ttl-refines :
      EngineYields
        (ttl hash now key e)
        e
        xss
        (shard_index hash e key)
        (Cache.ttl now key (view (items_at xss (shard_index hash e key))))
  unfolding ttl
  ttl-refines =
      on_shard-refines e xss v (shard_index hash e key) (ttl_locked now key) (Cache.ttl now key)
        shard_index-lt (λ l xs other c. ttl_locked-refines now l other key xs c)

  -- `expire` on a valid engine, with a deadline that the platform can represent, does not panic, is
  -- the `expire` of the cache of the key's shard, leaves the other caches alone, and keeps the
  -- engine valid.
  pub expire-refines :
      (latest seconds d : ℕ)
      → deadline_from latest now seconds ≡ ret d
      → EngineYields
          (expire hash latest now key seconds e)
          e
          xss
          (shard_index hash e key)
          (Cache.expire now key d (view (items_at xss (shard_index hash e key))))
  unfolding expire
  expire-refines latest seconds d h =
      on_shard-refines e xss v (shard_index hash e key) (expire_locked latest now key seconds)
        (Cache.expire now key d) shard_index-lt
        (λ l xs other c. expire_locked-refines latest now seconds d l other key xs h c)
