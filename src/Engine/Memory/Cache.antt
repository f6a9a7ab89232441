-- ===== src/Engine/Memory/Cache.antt =====
-- The cache that a shard implements: its entries as a list, least recently used first, each with
-- its deadline. No slots, no links, no map, no heap, no byte counts.
use hybird_kv.Prelude.{
  ℕ, suc, ◌-◌, Bool, true, false, Option, none, some, List, [], ◌∷◌, ◌++◌, Bytes, bytes_eq,
  if◌then◌else◌,
}
use hybird_kv.Engine.Node.{expired_by}
use hybird_kv.Engine.Memory.{TtlStatus, missing, no_expiry, expires_in}

pub record Entry : Type 0 where
  pub key : Bytes
  pub value : Bytes
  pub expires_at : Option ℕ

unfoldable pub find : Bytes → List Entry → Option Entry
find k [] = none
find k (e ∷ es) = if bytes_eq e.key k then some e else find k es

unfoldable pub without : Bytes → List Entry → List Entry
without k [] = []
without k (e ∷ es) = if bytes_eq e.key k then es else e ∷ without k es

-- A read returns the value of an entry that has not expired, and makes the entry the most recent
-- one. It drops an expired entry.
unfoldable pub get : ℕ → Bytes → List Entry → List Entry × Option Bytes
unfolding expired_by
get now k es = elim (find k es) [
  | none ↦ (es, none)
  | some e ↦
      if expired_by e.expires_at now
      then (without k es, none)
      else (without k es ++ e ∷ [], some e.value)
]

-- A write makes a new most recent entry, with the deadline given, whatever was there.
unfoldable pub write : Bytes → Bytes → Option ℕ → List Entry → List Entry
write k v deadline es = without k es ++ record { key = k; value = v; expires_at = deadline } ∷ []

-- A deletion drops the entry, and tells whether it had not expired.
unfoldable pub delete : ℕ → Bytes → List Entry → List Entry × Bool
unfolding expired_by
delete now k es = elim (find k es) [
  | none ↦ (es, false)
  | some e ↦ (without k es, if expired_by e.expires_at now then false else true)
]

unfoldable pub with_deadline : Bytes → ℕ → List Entry → List Entry
with_deadline k deadline [] = []
with_deadline k deadline (e ∷ es) =
    if bytes_eq e.key k
    then record e { expires_at = some deadline } ∷ es
    else e ∷ with_deadline k deadline es

-- A new deadline leaves the order alone. An expired entry is dropped instead.
unfoldable pub expire : ℕ → Bytes → ℕ → List Entry → List Entry × Bool
unfolding expired_by
expire now k deadline es = elim (find k es) [
  | none ↦ (es, false)
  | some e ↦
      if expired_by e.expires_at now
      then (without k es, false)
      else (with_deadline k deadline es, true)
]

unfoldable pub remaining : ℕ → Option ℕ → TtlStatus
remaining now none = no_expiry
remaining now (some deadline) = expires_in (deadline - now)

-- The query drops an expired entry, and otherwise changes nothing, not even the order.
unfoldable pub ttl : ℕ → Bytes → List Entry → List Entry × TtlStatus
unfolding expired_by remaining
ttl now k es = elim (find k es) [
  | none ↦ (es, missing)
  | some e ↦
      if expired_by e.expires_at now
      then (without k es, missing)
      else (es, remaining now e.expires_at)
]

-- The entries that have not expired, in their order.
unfoldable pub live : ℕ → List Entry → List Entry
live now [] = []
live now (e ∷ es) = let rest = live now es in if expired_by e.expires_at now then rest else e ∷ rest

-- How many entries have expired.
unfoldable pub dead : ℕ → List Entry → ℕ
dead now [] = 0
dead now (e ∷ es) = let rest = dead now es in if expired_by e.expires_at now then suc rest else rest
