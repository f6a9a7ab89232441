-- ===== src/Engine/Memory.antt =====
-- hkv-engine/src/memory.rs: `MemoryEngine`. What a method does while it holds the lock of one shard
-- is a function on `Locked`: that shard and the two atomic counters that it may change. The time
-- `now` is the `Instant` that the method has read, and `latest` is the last `Instant` that the
-- platform can represent: a sum past it panics.
pub mod Cache
pub mod Contents
pub mod View
pub mod Dropping
pub mod Reads
pub mod Scheduling
pub mod Storing
pub mod Writes
pub mod Due
pub mod Purging
use hybird_kv.Prelude.{
  ℕ, zero, suc, ◌+◌, ◌-◌, Bool, true, false, Option, none, some, Bytes, Outcome, ret, panic, ◌>>=◌,
  index, length, leb, ltb, if◌then◌else◌,
}
use hybird_kv.Engine.Word.{add_word, sub_word}
use hybird_kv.Engine.HashMap.{HashMap}
use hybird_kv.Engine.Node.{Node, ExpirationEntry, is_expired}
use hybird_kv.Engine.Shard.{
  ShardInner, modify_node, touch, insert_new, schedule_expiration, remove_idx, pop_due_expiration,
}

pub record Locked (Map : Type 0) : Type 0 where
  pub inner : ShardInner Map
  pub used_bytes : ℕ
  pub next_ttl_token : ℕ

-- hkv-engine/src/engine.rs: `TtlStatus`
pub data TtlStatus : Type 0 where
  missing no_expiry : TtlStatus
  expires_in : ℕ → TtlStatus

-- `now + ttl`
unfoldable pub deadline_from : ℕ → ℕ → ℕ → Outcome ℕ
deadline_from latest now ttl = if leb (now + ttl) latest then ret (now + ttl) else panic

-- `ttl.map(|ttl| now + ttl)`
unfoldable pub deadline_of : ℕ → ℕ → Option ℕ → Outcome (Option ℕ)
deadline_of latest now none = ret none
deadline_of latest now (some ttl) = do deadline ← deadline_from latest now ttl; ret (some deadline)

-- `entry_size`: both lengths are those of buffers in memory, so the sum does not overflow.
unfoldable pub entry_size : ℕ → ℕ → ℕ
entry_size key_len value_len = key_len + value_len

-- `.map(|node| node.is_expired(now)).unwrap_or(false)`
unfoldable pub expired_or_false : Option Node → ℕ → Bool
unfolding is_expired
expired_or_false none now = false
expired_or_false (some node) now = is_expired node now

-- `.and_then(|node| node.expires_at)`
unfoldable pub node_deadline : Option Node → Option ℕ
node_deadline none = none
node_deadline (some node) = node.expires_at

-- the two branches of the size accounting in `write_value`
unfoldable pub resize : ℕ → ℕ → ℕ → ℕ
resize used old_size new_size =
    if ltb old_size new_size
    then add_word used (new_size - old_size)
    else if ltb new_size old_size
    then sub_word used (old_size - new_size)
    else used

module _ {Map : Type 0} where
  -- `self.next_ttl_token()`: the token, and the counter after it
  unfoldable pub next_token : Locked Map → Locked Map × ℕ
  next_token l = (record l { next_ttl_token = add_word l.next_ttl_token 1 }, l.next_ttl_token)

  unfoldable pub schedule : Locked Map → ℕ → Option ℕ → ℕ → Locked Map
  schedule l idx none token = l
  schedule l idx (some deadline) token = record l {
    inner = schedule_expiration l.inner idx deadline token;
  }

module _ {Map : Type 0} ⦃m : HashMap Map⦄ where
  -- `if let Some(size) = inner.remove_idx(idx) { self.used_bytes.fetch_sub(size) }`
  unfoldable pub remove_counted : Locked Map → ℕ → Outcome (Locked Map)
  remove_counted l idx = do
    (inner, removed) ← remove_idx l.inner idx
    ret (elim removed [
      | none ↦ record l { inner = inner }
      | some size ↦ record l { inner = inner; used_bytes = sub_word l.used_bytes size }
    ])

  -- the first `if let` of `write_value`
  unfoldable pub drop_expired : Locked Map → Bytes → ℕ → Outcome (Locked Map)
  unfolding expired_or_false
  drop_expired l key now = elim (m.get l.inner.map key) [
    | none ↦ ret l
    | some idx ↦ do
      node ← index l.inner.nodes idx
      if expired_or_false node now then remove_counted l idx else ret l
  ]

  -- the branch of `write_value` for a key that has a node
  unfoldable pub overwrite : Locked Map → ℕ → Bytes → ℕ → Option ℕ → Outcome (Locked Map)
  unfolding next_token
  overwrite l idx value new_size expires_at = do
    let token = (next_token l).1
    let l1 = (next_token l).0
    found ← index l1.inner.nodes idx
    l2 ← elim found [
      | none ↦ ret l1
      | some node ↦ do
        written ← modify_node l1.inner idx (λ n. record n {
          value = value;
          size = new_size;
          expires_at = expires_at;
          ttl_token = token;
        })
        touched ← touch written idx
        ret (record l1 { inner = touched; used_bytes = resize l1.used_bytes node.size new_size })
    ]
    ret (schedule l2 idx expires_at token)

  -- `if let Some(node) = inner.nodes[idx].as_mut() { … }` of a new deadline
  unfoldable pub attach : Locked Map → ℕ → ℕ → ℕ → Outcome (Locked Map)
  attach l idx deadline token = do
    inner ←
        modify_node l.inner idx (λ n. record n { expires_at = some deadline; ttl_token = token })
    ret (record l { inner = schedule_expiration inner idx deadline token })

  -- the branch of `write_value` for a key that has none
  unfoldable pub write_new : Locked Map → Bytes → Bytes → ℕ → Option ℕ → Outcome (Locked Map)
  unfolding next_token
  write_new l key value new_size expires_at = do
    (inner, idx) ← insert_new l.inner key value new_size
    let l1 = record l { inner = inner; used_bytes = add_word l.used_bytes new_size }
    elim expires_at [
      | none ↦ ret l1
      | some deadline ↦ attach (next_token l1).0 idx deadline (next_token l1).1
    ]

  -- the second `if let … else` of `write_value`, with the scheduling
  unfoldable pub store : Locked Map → Bytes → Bytes → ℕ → Option ℕ → Outcome (Locked Map)
  store l key value new_size expires_at = elim (m.get l.inner.map key) [
    | none ↦ write_new l key value new_size expires_at
    | some idx ↦ overwrite l idx value new_size expires_at
  ]

  -- `write_value` under the lock, up to `drop(inner)`
  unfoldable pub write_locked : ℕ → ℕ → Bytes → Bytes → Option ℕ → Locked Map → Outcome (Locked Map)
  unfolding entry_size
  write_locked latest now key value ttl l = do
    let new_size = entry_size (length key) (length value)
    expires_at ← deadline_of latest now ttl
    l1 ← drop_expired l key now
    store l1 key value new_size expires_at

  unfoldable pub get_locked : ℕ → Bytes → Locked Map → Outcome (Locked Map × Option Bytes)
  unfolding is_expired
  get_locked now key l = elim (m.get l.inner.map key) [
    | none ↦ ret (l, none)
    | some idx ↦ do
      found ← index l.inner.nodes idx
      elim found [
        | none ↦ ret (l, none)
        | some node ↦
            if is_expired node now
            then (do l1 ← remove_counted l idx; ret (l1, none))
            else (do inner ← touch l.inner idx; ret (record l { inner = inner }, some node.value))
      ]
  ]

  unfoldable pub delete_locked : ℕ → Bytes → Locked Map → Outcome (Locked Map × Bool)
  unfolding expired_or_false
  delete_locked now key l = elim (m.get l.inner.map key) [
    | none ↦ ret (l, false)
    | some idx ↦ do
      found ← index l.inner.nodes idx
      l1 ← remove_counted l idx
      ret (l1, if expired_or_false found now then false else true)
  ]

  -- `Ok(())` is `true`, `Err(HkvError::NotFound)` is `false`
  unfoldable pub expire_locked : ℕ → ℕ → Bytes → ℕ → Locked Map → Outcome (Locked Map × Bool)
  unfolding expired_or_false next_token
  expire_locked latest now key ttl l = elim (m.get l.inner.map key) [
    | none ↦ ret (l, false)
    | some idx ↦ do
      found ← index l.inner.nodes idx
      if expired_or_false found now then (do l1 ← remove_counted l idx; ret (l1, false)) else (do
        let token = (next_token l).1
        expires_at ← deadline_from latest now ttl
        l1 ← attach (next_token l).0 idx expires_at token
        ret (l1, true))
  ]

  unfoldable pub ttl_status : ℕ → Option ℕ → Locked Map → ℕ → Outcome (Locked Map × TtlStatus)
  ttl_status now none l idx = ret (l, no_expiry)
  ttl_status now (some deadline) l idx =
      if leb deadline now
      then (do l1 ← remove_counted l idx; ret (l1, missing))
      else ret (l, expires_in (deadline - now))

  unfoldable pub ttl_locked : ℕ → Bytes → Locked Map → Outcome (Locked Map × TtlStatus)
  unfolding expired_or_false node_deadline
  ttl_locked now key l = elim (m.get l.inner.map key) [
    | none ↦ ret (l, missing)
    | some idx ↦ do
      found ← index l.inner.nodes idx
      if expired_or_false found now
          then (do l1 ← remove_counted l idx; ret (l1, missing))
          else ttl_status now (node_deadline found) l idx
  ]

  -- what a round of `purge_expired` does with the result of `remove_idx`, with `n` removed so far
  unfoldable pub on_purged : Locked Map → ℕ → ShardInner Map × Option ℕ → Locked Map × ℕ
  on_purged l n (inner, none) = (record l { inner = inner }, n)
  on_purged l n (inner, some size) =
      (record l { inner = inner; used_bytes = sub_word l.used_bytes size }, n + 1)

  -- a round of the `while` loop of `purge_expired`, with `again` for the rest of it
  unfoldable pub on_due :
      (ℕ → Locked Map → Outcome (Locked Map × ℕ))
      → Locked Map
      → ℕ
      → ShardInner Map × Option ExpirationEntry
      → Outcome (Locked Map × ℕ)
  unfolding on_purged
  on_due again l n (inner, none) = ret (record l { inner = inner }, n)
  on_due again l n (inner, some entry) = do
    purged ← remove_idx inner entry.idx
    let (l', n') = on_purged l n purged
    again n' l'

  -- the loop on one shard, for `fuel` rounds at most
  unfoldable pub purge_loop : ℕ → ℕ → ℕ → Locked Map → Outcome (Locked Map × ℕ)
  unfolding on_due
  purge_loop zero now n l = panic
  purge_loop (suc fuel) now n l = on_due (purge_loop fuel now) l n (pop_due_expiration l.inner now)

  -- every round takes an entry off the heap
  unfoldable pub purge_locked : ℕ → ℕ → Locked Map → Outcome (Locked Map × ℕ)
  purge_locked now n l = purge_loop (suc (length l.inner.ttl_heap)) now n l
