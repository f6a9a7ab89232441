-- ===== src/Engine/Shard.antt =====
-- hkv-engine/src/memory.rs: `ShardInner` and its methods. A method takes the shard and returns the
-- new one, or panics where an index or an `expect` of the source does.
pub mod Links
pub mod Distinct
pub mod Linked
pub mod Unlink
pub mod PushBack
pub mod Keys
pub mod Wf
pub mod Remove
pub mod Insert
pub mod Update
pub mod Touch
use hybird_kv.Prelude.{
  ℕ, ◌-◌, Option, none, some, List, [], ◌∷◌, ◌++◌, Bytes, Outcome, ret, panic, ◌>>=◌, index, assign,
  modify_at, length, if◌then◌else◌,
}
use hybird_kv.Engine.HashMap.{HashMap}
use hybird_kv.Engine.Node.{Node, ExpirationEntry, is_index, heap_push, pop_due}

pub record ShardInner (Map : Type 0) : Type 0 where
  pub map : Map
  pub nodes : List (Option Node)
  -- the recycled slots, from the end of the vector, where `push` and `pop` work
  pub free : List ℕ
  pub ttl_heap : List ExpirationEntry
  pub head : Option ℕ
  pub tail : Option ℕ

module _ {Map : Type 0} ⦃m : HashMap Map⦄ where
  unfoldable pub new : ShardInner Map
  new = record { map = m.empty; nodes = []; free = []; ttl_heap = []; head = none; tail = none }

module _ {Map : Type 0} where
  -- `self.nodes[idx].as_ref().expect("node exists")`
  unfoldable pub expect_node : ShardInner Map → ℕ → Outcome Node
  expect_node s idx = do o ← index s.nodes idx; elim o [ none ↦ panic | some node ↦ ret node ]

  unfoldable pub modify_node : ShardInner Map → ℕ → (Node → Node) → Outcome (ShardInner Map)
  modify_node s idx f = do nodes ← modify_at s.nodes idx f; ret (record s { nodes = nodes })

  -- the `if let Some(prev_idx) = prev … else { self.head = next }` of `lru_remove`
  unfoldable pub link_next : ShardInner Map → Option ℕ → Option ℕ → Outcome (ShardInner Map)
  unfolding modify_node
  link_next s none next = ret (record s { head = next })
  link_next s (some prev_idx) next = modify_node s prev_idx (λ n. record n { next = next })

  -- the `if let Some(next_idx) = next … else { self.tail = prev }` of `lru_remove`
  unfoldable pub link_prev : ShardInner Map → Option ℕ → Option ℕ → Outcome (ShardInner Map)
  unfolding modify_node
  link_prev s none prev = ret (record s { tail = prev })
  link_prev s (some next_idx) prev = modify_node s next_idx (λ n. record n { prev = prev })

  unfoldable pub lru_remove : ShardInner Map → ℕ → Outcome (ShardInner Map)
  unfolding expect_node link_next link_prev modify_node
  lru_remove s idx = do
    node ← expect_node s idx
    s1 ← link_next s node.prev node.next
    s2 ← link_prev s1 node.next node.prev
    modify_node s2 idx (λ n. record n { prev = none; next = none })

  unfoldable pub lru_push_back : ShardInner Map → ℕ → Outcome (ShardInner Map)
  unfolding link_next modify_node
  lru_push_back s idx = do
    let tail = s.tail
    s1 ← modify_node s idx (λ n. record n { prev = tail; next = none })
    s2 ← link_next s1 tail (some idx)
    ret (record s2 { tail = some idx })

  unfoldable pub touch : ShardInner Map → ℕ → Outcome (ShardInner Map)
  unfolding is_index lru_remove lru_push_back
  touch s idx =
      if is_index s.tail idx then ret s else do s1 ← lru_remove s idx; lru_push_back s1 idx

  -- `self.free.pop().unwrap_or_else(|| { self.nodes.push(None); self.nodes.len() - 1 })`
  unfoldable pub take_from : ShardInner Map → List ℕ → ShardInner Map × ℕ
  take_from s [] =
      let grown = s.nodes ++ none ∷ [] in (record s { nodes = grown }, length grown - 1)
  take_from s (i ∷ rest) = (record s { free = rest }, i)

  unfoldable pub take_slot : ShardInner Map → ShardInner Map × ℕ
  unfolding take_from
  take_slot s = take_from s s.free

  unfoldable pub schedule_expiration : ShardInner Map → ℕ → ℕ → ℕ → ShardInner Map
  schedule_expiration s idx expires_at token = record s {
    ttl_heap = heap_push (record { expires_at = expires_at; idx = idx; token = token }) s.ttl_heap;
  }

  unfoldable pub pop_due_expiration : ShardInner Map → ℕ → ShardInner Map × Option ExpirationEntry
  unfolding pop_due
  pop_due_expiration s now =
      let (found, heap) = pop_due s.nodes now s.ttl_heap in (record s { ttl_heap = heap }, found)

module _ {Map : Type 0} ⦃m : HashMap Map⦄ where
  unfoldable pub insert_new : ShardInner Map → Bytes → Bytes → ℕ → Outcome (ShardInner Map × ℕ)
  unfolding take_slot lru_push_back
  insert_new s key value size = do
    let idx = (take_slot s).1
    let s1 = (take_slot s).0
    nodes ← assign s1.nodes idx (
        some (record {
          key = key;
          value = value;
          expires_at = none;
          ttl_token = 0;
          size = size;
          prev = none;
          next = none;
        }))
    s2 ← lru_push_back (record s1 { nodes = nodes }) idx
    ret (record s2 { map = m.insert s2.map key idx }, idx)

  -- what `remove_idx` does once it has found the node
  unfoldable pub remove_node : ShardInner Map → ℕ → Node → Outcome (ShardInner Map)
  unfolding lru_remove
  remove_node s idx node = do
    s1 ← lru_remove s idx
    nodes ← assign s1.nodes idx none
    ret (record s1 { nodes = nodes; map = m.remove s1.map node.key; free = idx ∷ s1.free })

  unfoldable pub remove_idx : ShardInner Map → ℕ → Outcome (ShardInner Map × Option ℕ)
  unfolding remove_node
  remove_idx s idx = do
    o ← index s.nodes idx
    elim o [
      | none ↦ ret (s, none)
      | some node ↦ do s1 ← remove_node s idx node; ret (s1, some node.size)
    ]

  unfoldable pub pop_lru : ShardInner Map → Outcome (ShardInner Map × Option ℕ)
  unfolding remove_idx
  pop_lru s = elim s.head [ none ↦ ret (s, none) | some idx ↦ remove_idx s idx ]
