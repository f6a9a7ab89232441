-- ===== src/Engine/Node.antt =====
-- hkv-engine/src/memory.rs: `Node`, `ExpirationEntry` and the expiration heap of a shard. An
-- `Instant` and a `Duration` are numbers of nanoseconds.
use hybird_kv.Prelude.{
  ℕ, Bool, false, ◌&&◌, Option, none, some, List, [], ◌∷◌, Bytes, slot, ltb, leb, ◌==◌,
  if◌then◌else◌,
}

pub record Node : Type 0 where
  pub key : Bytes
  pub value : Bytes
  pub expires_at : Option ℕ
  pub ttl_token : ℕ
  pub size : ℕ
  pub prev : Option ℕ
  pub next : Option ℕ

unfoldable pub expired_by : Option ℕ → ℕ → Bool
expired_by none now = false
expired_by (some deadline) now = leb deadline now

unfoldable pub is_expired : Node → ℕ → Bool
unfolding expired_by
is_expired node now = expired_by node.expires_at now

pub record ExpirationEntry : Type 0 where
  pub expires_at : ℕ
  pub idx : ℕ
  pub token : ℕ

-- `Ord for ExpirationEntry`: is the first before or equal to the second?
unfoldable pub entry_le : ExpirationEntry → ExpirationEntry → Bool
entry_le a b =
    if a.expires_at == b.expires_at
    then (if a.idx == b.idx then leb a.token b.token else ltb a.idx b.idx)
    else ltb a.expires_at b.expires_at

-- The min-heap is its entries in ascending order: `peek` reads the first, `pop` drops it.
unfoldable pub heap_push : ExpirationEntry → List ExpirationEntry → List ExpirationEntry
heap_push e [] = e ∷ []
heap_push e (f ∷ heap) = if entry_le e f then e ∷ f ∷ heap else f ∷ heap_push e heap

unfoldable pub is_index : Option ℕ → ℕ → Bool
is_index none i = false
is_index (some j) i = j == i

-- `node.ttl_token == entry.token && node.expires_at == Some(entry.expires_at)`
unfoldable pub is_live : List (Option Node) → ExpirationEntry → Bool
unfolding is_index
is_live nodes entry = elim (slot nodes entry.idx) [
  | none ↦ false
  | some node ↦ node.ttl_token == entry.token && is_index node.expires_at entry.expires_at
]

-- the loop of `pop_due_expiration`: it ends with the heap, which every round shortens
unfoldable pub pop_due :
    List (Option Node) → ℕ → List ExpirationEntry → Option ExpirationEntry × List ExpirationEntry
unfolding is_live
pop_due nodes now [] = (none, [])
pop_due nodes now (entry ∷ heap) =
    if ltb now entry.expires_at
    then (none, entry ∷ heap)
    else (if is_live nodes entry then (some entry, heap) else pop_due nodes now heap)
