-- ===== src/Server/Store.antt =====
-- The server on the engine of hkv-engine/src/memory.rs: `impl KVEngine for MemoryEngine`, and what
-- a client's commands do to the caches that the shards stand for. A command runs at one reading
-- `now` of the clock, and `fuel` bounds the evictions of a write.
use hybird_kv.Prelude.{
  ℕ, arith, ◌≡◌, refl, ap, Bool, true, false, Option, none, some, List, [], ◌∷◌, Bytes, bytes,
  Outcome, ret, ◌>>=◌, set, ◌+◌, ◌-◌, ◌/◌, ◌^◌, ◌<◌, ltb, if◌then◌else◌,
}
use hybird_kv.Prelude.Int.{pos, negsuc}
use hybird_kv.Common.Error.{not_found}
use hybird_kv.Common.Types.{HkvResult, ok, err}
use hybird_kv.Engine.HashMap.{HashMap}
use hybird_kv.Engine.Shard.Links.{Items}
use hybird_kv.Engine.Memory.Cache
use hybird_kv.Engine.Memory.Cache.{Entry}
use hybird_kv.Engine.Memory.Contents.{view}
use hybird_kv.Engine.Sharded.{MemoryEngine, shard_index, write_value}
use hybird_kv.Engine.Sharded
use hybird_kv.Engine.Sharded.Routing.{IsValid, items_at, EngineYields}
use hybird_kv.Engine.Sharded.Methods.{get-refines, delete-refines, ttl-refines, expire-refines}
use hybird_kv.Wire.Decimal.{parse_usize}
use hybird_kv.Wire.Decimal
use hybird_kv.Engine.Memory.{TtlStatus, missing, no_expiry, expires_in, deadline_from, deadline_of}
use hybird_kv.Engine.Sharded.Eviction.{count_all}
use hybird_kv.Engine.Sharded.Writing.{WritesThrough, write_value-refines}
use hybird_kv.Server.Commands.{
  KvEngine, Reply, integer, bulk, null, get_reply, ttl_reply, as_i64, dispatch_command,
  eq_ignore_ascii_case, to_lower, handle_get, handle_del, delete_all, on_delete, handle_ttl,
  handle_expire, expire_reply, nanos, handle_set, ok_or_error, simple,
}
mod Tests

unfoldable pub expired_key : Bool → HkvResult Unit
expired_key true = ok tt
expired_key false = err not_found

module _ {Map : Type 0} ⦃m : HashMap Map⦄ (hash : Bytes → ℕ) (fuel latest now : ℕ) where
  unfoldable pub memory_kv : KvEngine (MemoryEngine Map)
  unfolding expired_key
  memory_kv = record {
    get = λ key e. (do (e', found) ← Sharded.get hash now key e; ret (e', ok found));
    set =
        λ key value e. (do e' ← write_value hash fuel latest now key value none e; ret (e', ok tt));
    set_with_ttl = λ key value ttl e. (do
      e' ← write_value hash fuel latest now key value (some ttl) e
      ret (e', ok tt));
    delete = λ key e. (do (e', was) ← Sharded.delete hash now key e; ret (e', ok was));
    expire = λ key ttl e. (do
      (e', there) ← Sharded.expire hash latest now key ttl e
      ret (e', expired_key there));
    ttl = λ key e. (do (e', status) ← Sharded.ttl hash now key e; ret (e', ok status));
  }

-- A command returns the reply, and of the caches only that of the key's shard changes, to `after`.
pub record Served {Map : Type 0} ⦃m : HashMap Map⦄ (xss : List Items) (i : ℕ) (after : List Entry)
    (reply : Reply) (run : Outcome (MemoryEngine Map × Reply)) : Type 0 where
  pub state : MemoryEngine Map
  pub items : Items
  pub returns : run ≡ ret (state, reply)
  pub valid : IsValid state (set xss i items)
  pub viewed : view items ≡ after

-- The reply to `EXPIRE`, and to `DEL` of one key.
abbrev pub flag_reply : Bool → Reply
flag_reply true = integer (pos 1)
flag_reply false = integer (pos 0)

-- The reply to `GET`: the value, or the null bulk string.
abbrev pub value_reply : Option Bytes → Reply
value_reply none = null
value_reply (some value) = bulk value

-- The reply to `TTL`: -2 for a missing key, -1 for one without a deadline, or the whole seconds, as
-- a signed number of 64 bits.
abbrev pub seconds_reply : TtlStatus → Reply
seconds_reply missing = integer (negsuc 1)
seconds_reply no_expiry = integer (negsuc 0)
seconds_reply (expires_in remaining) =
    let seconds = remaining / 1000000000 in
    integer (if ltb seconds (2 ^ 63) then pos seconds else negsuc (2 ^ 64 - 1 - seconds))

-- The cache of the key's shard.
abbrev pub cached :
    {Map : Type 0}
    → ⦃m : HashMap Map⦄ → (Bytes → ℕ)
    → MemoryEngine Map
    → List Items
    → Bytes
    → List Entry
cached hash e xss key = view (items_at xss (shard_index hash e key))

yields-Served :
    {Map R : Type 0}
    → ⦃m : HashMap Map⦄
    → {step : Outcome (MemoryEngine Map × R)} {e : MemoryEngine Map} {xss : List Items} {i : ℕ}
      {p : List Entry × R} {reply : Reply} {run : Outcome (MemoryEngine Map × Reply)}
      (y : EngineYields step e xss i p)
    → run ≡ ret (y.state, reply)
    → Served xss i p.0 reply run
yields-Served y e = record {
  state = y.state;
  items = y.items;
  returns = e;
  valid = y.valid;
  viewed = y.viewed;
}

module _ {Map : Type 0} ⦃m : HashMap Map⦄ (hash : Bytes → ℕ) (fuel latest now : ℕ)
    (info key : Bytes) (e : MemoryEngine Map) (xss : List Items) (v : IsValid e xss) where
  get-Served :
      Served xss
        (shard_index hash e key)
        (Cache.get now key (cached hash e xss key)).0
        (value_reply (Cache.get now key (cached hash e xss key)).1)
        (dispatch_command ⦃m = memory_kv hash fuel latest now⦄ info (bytes "GET" ∷ key ∷ []) e)
  unfolding dispatch_command eq_ignore_ascii_case to_lower handle_get get_reply memory_kv
  get-Served =
      let y = get-refines hash now key e xss v in yields-Served y (rw y.returns (replied y.state _))
    where
      replied :
          (s : MemoryEngine Map) (found : Option Bytes)
          → ◌≡◌ {A = Outcome (MemoryEngine Map × Reply)}
              (ret (s, get_reply (ok found)))
              (ret (s, value_reply found))
      replied s none = refl
      replied s (some value) = refl

  delete-Served :
      Served xss
        (shard_index hash e key)
        (Cache.delete now key (cached hash e xss key)).0
        (flag_reply (Cache.delete now key (cached hash e xss key)).1)
        (dispatch_command ⦃m = memory_kv hash fuel latest now⦄ info (bytes "DEL" ∷ key ∷ []) e)
  unfolding dispatch_command eq_ignore_ascii_case to_lower handle_del delete_all on_delete memory_kv
  delete-Served =
      let y = delete-refines hash now key e xss v in
      yields-Served y (rw y.returns (counted y.state _))
    where
      counted :
          (s : MemoryEngine Map) (was : Bool)
          → on_delete ⦃m = memory_kv hash fuel latest now⦄
              (delete_all ⦃m = memory_kv hash fuel latest now⦄ [])
              0
              (s, ok was)
            ≡ ret (s, flag_reply was)
      counted s true = ap (λ n. ret (s, integer (pos n))) (omega arith)
      counted s false = refl

  ttl-Served :
      Served xss
        (shard_index hash e key)
        (Cache.ttl now key (cached hash e xss key)).0
        (seconds_reply (Cache.ttl now key (cached hash e xss key)).1)
        (dispatch_command ⦃m = memory_kv hash fuel latest now⦄ info (bytes "TTL" ∷ key ∷ []) e)
  unfolding dispatch_command eq_ignore_ascii_case to_lower handle_ttl ttl_reply as_i64 memory_kv
  ttl-Served =
      let y = ttl-refines hash now key e xss v in yields-Served y (rw y.returns (replied y.state _))
    where
      replied :
          (s : MemoryEngine Map) (status : TtlStatus)
          → ◌≡◌ {A = Outcome (MemoryEngine Map × Reply)}
              (ret (s, ttl_reply (ok status)))
              (ret (s, seconds_reply status))
      replied s missing = refl
      replied s no_expiry = refl
      replied s (expires_in remaining) = refl

  module _ (seconds : Bytes) (n d : ℕ) (parsed : parse_usize seconds ≡ Decimal.ok n)
      (h : deadline_from latest now (nanos n) ≡ ret d) where
    expire-Served :
        Served xss
          (shard_index hash e key)
          (Cache.expire now key d (cached hash e xss key)).0
          (flag_reply (Cache.expire now key d (cached hash e xss key)).1)
          (dispatch_command ⦃m = memory_kv hash fuel latest now⦄ info
            (bytes "EXPIRE" ∷ key ∷ seconds ∷ [])
            e)
    unfolding dispatch_command eq_ignore_ascii_case to_lower handle_expire memory_kv expire_reply
        expired_key
    expire-Served =
        let y = expire-refines hash now key e xss v latest (nanos n) d h in
        yields-Served y
          (rw (dispatch_command, handle_expire, parsed) (rw y.returns (replied y.state _)))
      where
        replied :
            (s : MemoryEngine Map) (there : Bool)
            → ◌≡◌ {A = Outcome (MemoryEngine Map × Reply)}
                (ret (s, expire_reply (expired_key there)))
                (ret (s, flag_reply there))
        replied s true = refl
        replied s false = refl

    -- On a valid engine `GET`, `DEL` of one key, `TTL` and `EXPIRE` with a number of seconds that
    -- parses to a deadline that the platform can represent return: the reply is the value or null,
    -- whether an entry was there, -2, -1 or the whole seconds as a signed number of 64 bits, and
    -- whether the deadline was set, as the operation on the cache of the key's shard finds it; that
    -- cache becomes what the operation leaves, the caches of the other shards stay, and the engine
    -- stays valid.
    pub commands-Served :
        Served xss
          (shard_index hash e key)
          (Cache.get now key (cached hash e xss key)).0
          (value_reply (Cache.get now key (cached hash e xss key)).1)
          (dispatch_command ⦃m = memory_kv hash fuel latest now⦄ info (bytes "GET" ∷ key ∷ []) e)
        × Served xss
            (shard_index hash e key)
            (Cache.delete now key (cached hash e xss key)).0
            (flag_reply (Cache.delete now key (cached hash e xss key)).1)
            (dispatch_command ⦃m = memory_kv hash fuel latest now⦄ info (bytes "DEL" ∷ key ∷ []) e)
        × Served xss
            (shard_index hash e key)
            (Cache.ttl now key (cached hash e xss key)).0
            (seconds_reply (Cache.ttl now key (cached hash e xss key)).1)
            (dispatch_command ⦃m = memory_kv hash fuel latest now⦄ info (bytes "TTL" ∷ key ∷ []) e)
        × Served xss
            (shard_index hash e key)
            (Cache.expire now key d (cached hash e xss key)).0
            (flag_reply (Cache.expire now key d (cached hash e xss key)).1)
            (dispatch_command ⦃m = memory_kv hash fuel latest now⦄ info
              (bytes "EXPIRE" ∷ key ∷ seconds ∷ [])
              e)
    commands-Served = (get-Served, delete-Served, ttl-Served, expire-Served)

    -- `SET` with `EX` and a number of seconds that parses to a deadline that the platform can
    -- represent, on a valid engine and with fuel for one more than the engine's entries, replies
    -- `OK`: the cache of the key's shard gets the entry with that deadline, and what is dropped
    -- after that are least recently used entries of shards, each while the sizes of all entries,
    -- modulo 2^64, are over the budget, until the engine is within it or has nothing to drop.
    pub set-Written :
        (value : Bytes)
        → count_all xss + 1 < fuel
        → (w : WritesThrough
            (write_value hash fuel latest now key value (some (nanos n)) e)
            e
            xss
            (shard_index hash e key)
            (Cache.write key value (some d) (cached hash e xss key)))
          × (dispatch_command ⦃m = memory_kv hash fuel latest now⦄ info
                (bytes "SET" ∷ key ∷ value ∷ bytes "EX" ∷ seconds ∷ [])
                e
              ≡ ret (w.state, simple (bytes "OK")))
    unfolding dispatch_command eq_ignore_ascii_case to_lower handle_set memory_kv ok_or_error
        deadline_of
    set-Written value enough =
        let w =
          write_value-refines hash fuel latest now key value (some (nanos n)) (some d) e xss v
            (rw h) enough in
        (w, rw parsed (rw w.returns))
