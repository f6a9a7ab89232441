-- ===== src/Engine/Sharded.antt =====
-- hkv-engine/src/memory.rs: `MemoryEngine` over all its shards, its construction, the routing of a
-- key to a shard, eviction, and the methods of `KVEngine`. A method runs as one step: no other
-- thread comes between the lock of its shard and its eviction. `hash` is the hasher that the engine
-- takes from a library, with the seed that the engine keeps.
pub mod Routing
pub mod Building
pub mod Methods
pub mod Eviction
pub mod Budget
pub mod Writing
pub mod Expiring
use Prim.Native.Nat.{bit_and}
use hybird_kv.Prelude.{
  ℕ, zero, suc, ◌+◌, ◌-◌, ◌*◌, ◌%◌, ◌==◌, Bool, true, false, Option, none, some, List, Bytes,
  Outcome, ret, panic, ◌>>=◌, get_elem?, set, length, replicate, leb, max, if◌then◌else◌,
}
use hybird_kv.Engine.Word.{word, add_word, sub_word}
use hybird_kv.Engine.HashMap.{HashMap}
use hybird_kv.Engine.Shard.{ShardInner, new, pop_lru}
use hybird_kv.Engine.Memory.{
  Locked, TtlStatus, get_locked, delete_locked, expire_locked, ttl_locked, write_locked,
  purge_locked,
}

pub record MemoryEngine (Map : Type 0) : Type 0 where
  pub shards : List (ShardInner Map)
  pub shard_mask : ℕ
  pub max_bytes : ℕ
  pub used_bytes : ℕ
  pub eviction_cursor : ℕ
  pub next_ttl_token : ℕ

-- `usize::next_power_of_two`, by doubling; past the last power of a word it panics
unfoldable pub power_from : ℕ → ℕ → ℕ → Outcome ℕ
power_from zero p count = panic
power_from (suc f) p count =
    let rest = power_from f (2 * p) count in if leb count p then ret p else rest

unfoldable pub normalize_shard_count : ℕ → Outcome ℕ
normalize_shard_count count = power_from 64 1 (max count 1)

module _ {Map : Type 0} ⦃m : HashMap Map⦄ where
  unfoldable pub with_shard_count_and_capacity : ℕ → ℕ → Outcome (MemoryEngine Map)
  with_shard_count_and_capacity shards max_bytes = do
    shard_count ← normalize_shard_count shards
    ret (record {
      shards = replicate shard_count new;
      shard_mask = shard_count - 1;
      max_bytes = max_bytes;
      used_bytes = 0;
      eviction_cursor = 0;
      next_ttl_token = 1;
    })

module _ {Map : Type 0} where
  unfoldable pub shard_index : (Bytes → ℕ) → MemoryEngine Map → Bytes → ℕ
  shard_index hash e key = bit_and (hash key) e.shard_mask

  -- `&self.shards[i]`
  unfoldable pub shard_at : MemoryEngine Map → ℕ → Outcome (ShardInner Map)
  shard_at e i = elim (get_elem? e.shards i) [ none ↦ panic | some s ↦ ret s ]

  abbrev pub lock : MemoryEngine Map → ShardInner Map → Locked Map
  lock e s = record { inner = s; used_bytes = e.used_bytes; next_ttl_token = e.next_ttl_token }

  abbrev pub unlock : MemoryEngine Map → ℕ → Locked Map → MemoryEngine Map
  unlock e i l = record e {
    shards = set e.shards i l.inner;
    used_bytes = l.used_bytes;
    next_ttl_token = l.next_ttl_token;
  }

  -- A method that works under the lock of shard `i`.
  unfoldable pub on_shard :
      {R : Type 0}
      → MemoryEngine Map
      → ℕ
      → (Locked Map → Outcome (Locked Map × R))
      → Outcome (MemoryEngine Map × R)
  on_shard e i step = do s ← shard_at e i; (l, r) ← step (lock e s); ret (unlock e i l, r)

module _ {Map : Type 0} ⦃m : HashMap Map⦄ where
  unfoldable pub evict_one_from_shard : MemoryEngine Map → ℕ → Outcome (MemoryEngine Map × Option ℕ)
  evict_one_from_shard e i = do
    s ← shard_at e i
    (s', removed) ← pop_lru s
    ret (record e { shards = set e.shards i s' }, removed)

  -- the `for offset` loop of `evict_if_needed`, with `n` rounds left
  unfoldable pub evict_scan : ℕ → ℕ → ℕ → MemoryEngine Map → Outcome (MemoryEngine Map × Bool)
  evict_scan zero offset start e = ret (e, false)
  evict_scan (suc n) offset start e = do
    (e', removed) ← evict_one_from_shard e (bit_and (add_word start offset) e.shard_mask)
    elim removed [
      | none ↦ evict_scan n (offset + 1) start e'
      | some size ↦ ret (record e' { used_bytes = sub_word e'.used_bytes size }, true)
    ]

  -- the `loop` of `evict_if_needed`; with no fuel left it panics, and `Eviction` shows that as much
  -- fuel as there are entries, and one more, is enough
  unfoldable pub evict_loop : ℕ → MemoryEngine Map → Outcome (MemoryEngine Map)
  evict_loop zero e = panic
  evict_loop (suc f) e = elim (leb e.used_bytes e.max_bytes) [
    | true ↦ ret e
    | false ↦ do
      (e', evicted) ←
          evict_scan (length e.shards) 0 e.eviction_cursor
            (record e { eviction_cursor = add_word e.eviction_cursor 1 })
      elim evicted [ true ↦ evict_loop f e' | false ↦ ret e' ]
  ]

  unfoldable pub evict_if_needed : ℕ → MemoryEngine Map → Outcome (MemoryEngine Map)
  evict_if_needed fuel e = if e.max_bytes == word - 1 then ret e else evict_loop fuel e

  module _ (hash : Bytes → ℕ) where
    unfoldable pub get : ℕ → Bytes → MemoryEngine Map → Outcome (MemoryEngine Map × Option Bytes)
    get now key e = on_shard e (shard_index hash e key) (get_locked now key)

    unfoldable pub delete : ℕ → Bytes → MemoryEngine Map → Outcome (MemoryEngine Map × Bool)
    delete now key e = on_shard e (shard_index hash e key) (delete_locked now key)

    unfoldable pub ttl : ℕ → Bytes → MemoryEngine Map → Outcome (MemoryEngine Map × TtlStatus)
    ttl now key e = on_shard e (shard_index hash e key) (ttl_locked now key)

    unfoldable pub expire : ℕ → ℕ → Bytes → ℕ → MemoryEngine Map → Outcome (MemoryEngine Map × Bool)
    expire latest now key ttl e =
        on_shard e (shard_index hash e key) (expire_locked latest now key ttl)

    -- `write_value`: `set` with no deadline, `set_with_ttl` with one
    unfoldable pub write_value :
        ℕ → ℕ → ℕ → Bytes → Bytes → Option ℕ → MemoryEngine Map → Outcome (MemoryEngine Map)
    write_value fuel latest now key value ttl e = do
      (e', _) ←
          on_shard e (shard_index hash e key)
            (λ l. do l' ← write_locked latest now key value ttl l; ret (l', tt {0}))
      evict_if_needed fuel e'

  -- the `for` loop of `purge_expired`, with `k` shards left from shard `i` on and `removed` so far
  unfoldable pub purge_from : ℕ → ℕ → ℕ → ℕ → MemoryEngine Map → Outcome (MemoryEngine Map × ℕ)
  purge_from zero now i removed e = ret (e, removed)
  purge_from (suc k) now i removed e = do
    (e', removed') ← on_shard e i (purge_locked now removed)
    purge_from k now (suc i) removed' e'

  unfoldable pub purge_expired : ℕ → MemoryEngine Map → Outcome (MemoryEngine Map × ℕ)
  purge_expired now e = purge_from (length e.shards) now 0 0 e
