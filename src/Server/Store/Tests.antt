-- ===== src/Server/Store/Tests.antt =====
-- Commands of a client on an engine that holds one entry.
use hybird_kv.Prelude.{◌≡◌, refl, arith, [], ◌∷◌, bytes, ret, some, ◌+◌}
use hybird_kv.Wire.Decimal.{parse_usize, parse_digits, is_ascii_digit, push_digit}
use hybird_kv.Wire.Decimal
use hybird_kv.Engine.Memory.{deadline_from}
use hybird_kv.Engine.Memory.Cache
use hybird_kv.Engine.Sharded.{shard_index, write_value}
use hybird_kv.Engine.Sharded.Eviction.{count_all}
use hybird_kv.Engine.Sharded.Writing.{WritesThrough}
use hybird_kv.Engine.Tests.{by_function, test_hash, key_a, value_x, set_a}
use hybird_kv.Server.Commands.{dispatch_command, simple}
use hybird_kv.Server.Store.{
  memory_kv, Served, flag_reply, value_reply, seconds_reply, cached, commands-Served, set-Written,
}

thirty : parse_usize (bytes "30") ≡ Decimal.ok 30
unfolding parse_usize parse_digits is_ascii_digit push_digit
thirty = refl

set-Written_example :
    (w : WritesThrough
      (write_value test_hash
        (count_all set_a.items + 2)
        90000000000
        7
        key_a
        value_x
        (some 30000000000)
        set_a.state)
      set_a.state
      set_a.items
      (shard_index test_hash set_a.state key_a)
      (Cache.write key_a value_x
        (some 30000000007)
        (cached test_hash set_a.state set_a.items key_a)))
    × (dispatch_command ⦃m = memory_kv test_hash (count_all set_a.items + 2) 90000000000 7⦄ []
          (bytes "SET" ∷ key_a ∷ value_x ∷ bytes "EX" ∷ bytes "30" ∷ [])
          set_a.state
        ≡ ret (w.state, simple (bytes "OK")))
unfolding deadline_from
set-Written_example =
    set-Written test_hash (count_all set_a.items + 2) 90000000000 7 [] key_a set_a.state set_a.items
      set_a.valid (bytes "30") 30 30000000007 thirty refl value_x (omega arith)

commands-Served_example :
    Served set_a.items
      (shard_index test_hash set_a.state key_a)
      (Cache.get 7 key_a (cached test_hash set_a.state set_a.items key_a)).0
      (value_reply (Cache.get 7 key_a (cached test_hash set_a.state set_a.items key_a)).1)
      (dispatch_command ⦃m = memory_kv test_hash 9 90000000000 7⦄ []
        (bytes "GET" ∷ key_a ∷ [])
        set_a.state)
    × Served set_a.items
        (shard_index test_hash set_a.state key_a)
        (Cache.delete 7 key_a (cached test_hash set_a.state set_a.items key_a)).0
        (flag_reply (Cache.delete 7 key_a (cached test_hash set_a.state set_a.items key_a)).1)
        (dispatch_command ⦃m = memory_kv test_hash 9 90000000000 7⦄ []
          (bytes "DEL" ∷ key_a ∷ [])
          set_a.state)
    × Served set_a.items
        (shard_index test_hash set_a.state key_a)
        (Cache.ttl 7 key_a (cached test_hash set_a.state set_a.items key_a)).0
        (seconds_reply (Cache.ttl 7 key_a (cached test_hash set_a.state set_a.items key_a)).1)
        (dispatch_command ⦃m = memory_kv test_hash 9 90000000000 7⦄ []
          (bytes "TTL" ∷ key_a ∷ [])
          set_a.state)
    × Served set_a.items
        (shard_index test_hash set_a.state key_a)
        (Cache.expire 7 key_a 30000000007 (cached test_hash set_a.state set_a.items key_a)).0
        (flag_reply
          (Cache.expire 7 key_a 30000000007 (cached test_hash set_a.state set_a.items key_a)).1)
        (dispatch_command ⦃m = memory_kv test_hash 9 90000000000 7⦄ []
          (bytes "EXPIRE" ∷ key_a ∷ bytes "30" ∷ [])
          set_a.state)
unfolding deadline_from
commands-Served_example =
    commands-Served test_hash 9 90000000000 7 [] key_a set_a.state set_a.items set_a.valid
      (bytes "30") 30 30000000007 thirty refl
