-- ===== src/Engine/Tests.antt =====
-- Concrete runs of the engine, and its theorems applied to concrete states.
use hybird_kv.Prelude.{
  ℕ, ◌≡◌, refl, [], ◌∷◌, Option, none, some, Bytes, bytes_eq, ret, length, ◌+◌, arith,
  if◌then◌else◌,
}
use hybird_kv.Engine.HashMap.{HashMap}
use hybird_kv.Engine.Shard.{ShardInner, new, remove_idx, insert_new}
use hybird_kv.Engine.Shard.Wf.{IsWf, new-IsWf}
use hybird_kv.Engine.Shard.Insert.{insert_new-IsWf, fresh}
use hybird_kv.Engine.Shard.Remove.{remove_idx-removes}
use hybird_kv.Engine.Sharded.{MemoryEngine, shard_index, evict_loop, write_value}
use hybird_kv.Engine.Sharded.Routing.{IsValid, items_at}
use hybird_kv.Engine.Sharded.Expiring.{Purged, dead_from, purge_expired-Purged}
use hybird_kv.Engine.Sharded.{purge_expired}
use hybird_kv.Engine.Sharded.Eviction.{count_all}
use hybird_kv.Engine.Sharded.Budget.{Settles, evict_loop-Settles}
use hybird_kv.Engine.Sharded.Writing.{WritesThrough, write_value-refines}
use hybird_kv.Engine.Memory.{
  Locked, deadline_of, deadline_from, get_locked, delete_locked, ttl_locked, expire_locked,
  write_locked,
}
use hybird_kv.Engine.Memory.Cache
use hybird_kv.Engine.Memory.Contents.{IsConsistent, Yields, view}
use hybird_kv.Engine.Memory.Storing.{Leaves}
use hybird_kv.Engine.Memory.Reads.{get_locked-refines, delete_locked-refines, ttl_locked-refines}
use hybird_kv.Engine.Memory.Writes.{write_locked-refines, expire_locked-refines}

abbrev pub TestMap : Type 0
TestMap = Bytes → Option ℕ

instance pub by_function : HashMap TestMap
by_function = record {
  empty = λ k. none;
  get = λ m k. m k;
  insert = λ m k i j. if bytes_eq k j then some i else m j;
  remove = λ m k j. if bytes_eq k j then none else m j;
  get-empty = λ k. refl;
  get-insert = λ m k i j. refl;
  get-remove = λ m k j. refl;
}

abbrev pub key_a : Bytes
key_a = 97 ∷ []

abbrev key_b : Bytes
key_b = 98 ∷ []

abbrev pub value_x : Bytes
value_x = 120 ∷ 120 ∷ []

abbrev shard0 : ShardInner TestMap
shard0 = new

one :
    (s' : ShardInner TestMap) × (idx : ℕ) × (insert_new shard0 key_a value_x 3 ≡ ret (s', idx))
    × IsWf s' ((idx, fresh key_a value_x 3) ∷ [])
    × (s'.ttl_heap ≡ shard0.ttl_heap)
one = insert_new-IsWf shard0 [] new-IsWf key_a value_x 3 tt

insert_new-IsWf_example :
    (s' : ShardInner TestMap) × (idx : ℕ) × (insert_new one.0 key_b value_x 3 ≡ ret (s', idx))
    × IsWf s' ((one.1, fresh key_a value_x 3) ∷ (idx, fresh key_b value_x 3) ∷ [])
    × (s'.ttl_heap ≡ one.0.ttl_heap)
unfolding bytes_eq
insert_new-IsWf_example =
    insert_new-IsWf one.0 ((one.1, fresh key_a value_x 3) ∷ []) one.3 key_b value_x 3 (refl, tt)

abbrev locked0 : Locked TestMap
locked0 = record { inner = shard0; used_bytes = 0; next_ttl_token = 1 }

locked0-IsConsistent : IsConsistent locked0 [] 0
unfolding new
locked0-IsConsistent = record {
  wf = new-IsWf;
  sized = tt;
  used = refl;
  scheduled = tt;
  ascending = tt;
}

two :
    (s' : ShardInner TestMap) × (idx : ℕ) × (insert_new one.0 key_b value_x 3 ≡ ret (s', idx))
    × IsWf s' ((one.1, fresh key_a value_x 3) ∷ (idx, fresh key_b value_x 3) ∷ [])
    × (s'.ttl_heap ≡ one.0.ttl_heap)
unfolding bytes_eq
two = insert_new-IsWf one.0 ((one.1, fresh key_a value_x 3) ∷ []) one.3 key_b value_x 3 (refl, tt)

remove_idx-removes_example :
    (s' : ShardInner TestMap) × (remove_idx two.0 one.1 ≡ ret (s', some 3))
    × IsWf s' ((two.1, fresh key_b value_x 3) ∷ [])
remove_idx-removes_example =
    remove_idx-removes two.0 [] one.1 (fresh key_a value_x 3) ((two.1, fresh key_b value_x 3) ∷ [])
      two.3

written :
    Leaves
      (write_locked 1000 5 key_a value_x (some 10) locked0)
      0
      (Cache.write key_a value_x (some 15) [])
unfolding deadline_of deadline_from
written =
    write_locked-refines 0 1000 5 key_a value_x (some 10) (some 15) locked0 [] refl
      locked0-IsConsistent

write_locked-refines_example :
    Leaves
      (write_locked 1000 6 key_a key_b none written.state)
      0
      (Cache.write key_a key_b none (view written.items))
unfolding deadline_of
write_locked-refines_example =
    write_locked-refines 0 1000 6 key_a key_b none none written.state written.items refl
      written.consistent

get_locked-refines_example :
    Yields (get_locked 7 key_a written.state) 0 (Cache.get 7 key_a (view written.items))
get_locked-refines_example =
    get_locked-refines 7 written.state 0 key_a written.items written.consistent

-- here the entry has expired
delete_locked-refines_example :
    Yields (delete_locked 20 key_a written.state) 0 (Cache.delete 20 key_a (view written.items))
delete_locked-refines_example =
    delete_locked-refines 20 written.state 0 key_a written.items written.consistent

ttl_locked-refines_example :
    Yields (ttl_locked 7 key_a written.state) 0 (Cache.ttl 7 key_a (view written.items))
ttl_locked-refines_example =
    ttl_locked-refines 7 written.state 0 key_a written.items written.consistent

expire_locked-refines_example :
    Yields
      (expire_locked 1000 7 key_a 30 written.state)
      0
      (Cache.expire 7 key_a 37 (view written.items))
unfolding deadline_from
expire_locked-refines_example =
    expire_locked-refines 1000 7 30 37 written.state 0 key_a written.items refl written.consistent

-- Two shards, and room for four bytes.
abbrev engine0 : MemoryEngine TestMap
engine0 = record {
  shards = new ∷ new ∷ [];
  shard_mask = 1;
  max_bytes = 4;
  used_bytes = 0;
  eviction_cursor = 0;
  next_ttl_token = 1;
}

engine0-IsValid : IsValid engine0 ([] ∷ [] ∷ [])
unfolding new
engine0-IsValid = record {
  shards_sound = (
    record { wf = new-IsWf; sized = tt; scheduled = tt; ascending = tt },
    (record { wf = new-IsWf; sized = tt; scheduled = tt; ascending = tt }, tt),
  );
  used = refl;
  masked = refl;
}

abbrev pub test_hash : Bytes → ℕ
test_hash [] = 0
test_hash (b ∷ bs) = b

pub set_a :
    WritesThrough
      (write_value test_hash 9 1000 5 key_a value_x (some 10) engine0)
      engine0
      ([] ∷ [] ∷ [])
      (shard_index test_hash engine0 key_a)
      (Cache.write key_a value_x
        (some 15)
        (view (items_at ([] ∷ [] ∷ []) (shard_index test_hash engine0 key_a))))
unfolding deadline_of deadline_from
set_a =
    write_value-refines test_hash 9 1000 5 key_a value_x (some 10) (some 15) engine0 ([] ∷ [] ∷ [])
      engine0-IsValid refl (omega arith)

-- a second write, of a key whose entry does not fit beside the first
write_value-refines_example :
    WritesThrough
      (write_value test_hash (count_all set_a.items + 2) 1000 6 key_b value_x none set_a.state)
      set_a.state
      set_a.items
      (shard_index test_hash set_a.state key_b)
      (Cache.write key_b value_x none
        (view (items_at set_a.items (shard_index test_hash set_a.state key_b))))
unfolding deadline_of
write_value-refines_example =
    write_value-refines test_hash (count_all set_a.items + 2) 1000 6 key_b value_x none none
      set_a.state set_a.items set_a.valid refl (omega arith)

evict_loop-Settles_example :
    Settles
      (evict_loop (count_all set_a.items + 1) (record set_a.state { max_bytes = 1 }))
      (record set_a.state { max_bytes = 1 })
      set_a.items
evict_loop-Settles_example =
    evict_loop-Settles (count_all set_a.items + 1) (record set_a.state { max_bytes = 1 })
      set_a.items (omega arith)
      (record {
        shards_sound = set_a.valid.shards_sound;
        used = set_a.valid.used;
        masked = set_a.valid.masked;
      })

-- after the deadline of the first write
purge_expired-Purged_example :
    Purged 20 set_a.items 0
      (dead_from 20 (length set_a.state.shards) 0 set_a.items)
      (purge_expired 20 set_a.state)
purge_expired-Purged_example = purge_expired-Purged 20 set_a.state set_a.items set_a.valid
