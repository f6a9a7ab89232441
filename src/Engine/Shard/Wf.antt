-- ===== src/Engine/Shard/Wf.antt =====
-- The invariant of a shard, and the facts on its free list that the methods share.
use hybird_kv.Prelude.{
  ℕ, ◌+◌, ◌<◌, ◌≡◌, ◌≢◌, refl, subst, Option, none, some, List, [], ◌∷◌, arith, Bytes, slot, length,
}
use hybird_kv.Engine.HashMap.{HashMap}
use hybird_kv.Engine.Node.{Node}
use hybird_kv.Engine.Shard.{ShardInner, new}
use hybird_kv.Engine.Shard.Links.{Items, Absent, Seg}
use hybird_kv.Engine.Shard.Linked.{IsLinked}
use hybird_kv.Engine.Shard.Keys.{index_of, UniqueKeys}

abbrev pub NotIn : ℕ → List ℕ → Type 0
NotIn i [] = Unit
NotIn i (j ∷ js) = (i ≢ j) × NotIn i js

-- Recycled slots are in range, empty, and listed once.
abbrev pub FreeSlots : List (Option Node) → List ℕ → Type 0
FreeSlots nodes [] = Unit
FreeSlots nodes (i ∷ free) =
    (i < length nodes) × (slot nodes i ≡ none) × NotIn i free × FreeSlots nodes free

-- The shard holds exactly the items `xs`, least recently used first: the links run through them,
-- every other slot is empty, the map sends a key to the slot of the item with that key and to
-- nothing else, no two items share a key, and every empty slot is on the free list once.
pub record IsWf {Map : Type 0} ⦃m : HashMap Map⦄ (s : ShardInner Map) (xs : Items) : Type 0 where
  pub links : IsLinked s xs
  pub empty_elsewhere : (j : ℕ) → Absent j xs → slot s.nodes j ≡ none
  pub unique : UniqueKeys xs
  pub mapped : (k : Bytes) → m.get s.map k ≡ index_of k xs
  pub free_slots : FreeSlots s.nodes s.free
  pub count : length s.nodes ≡ length xs + length s.free

pub Seg-Absent :
    (nodes : List (Option Node)) (j : ℕ) (p : Option ℕ) (xs : Items) (q : Option ℕ)
    → slot nodes j ≡ none
    → Seg nodes p xs q
    → Absent j xs
Seg-Absent nodes j p [] q h g = tt
Seg-Absent nodes j p ((i, e) ∷ xs) q h g = (
  λ eq. absurd_slot (subst (λ k. slot nodes k ≡ none) eq h) g.0,
  Seg-Absent nodes j (some i) xs q h g.1,
)
  where
    absurd_slot : {v : Node} → slot nodes i ≡ none → slot nodes i ≡ some v → ⊥
    absurd_slot a b = cc

-- The free list survives a change of the arena that keeps its size and its empty slots.
pub FreeSlots-frame :
    (nodes nodes' : List (Option Node)) (free : List ℕ)
    → length nodes' ≡ length nodes
    → ((j : ℕ) → slot nodes j ≡ none → slot nodes' j ≡ none)
    → FreeSlots nodes free
    → FreeSlots nodes' free
FreeSlots-frame nodes nodes' [] n keep h = tt
FreeSlots-frame nodes nodes' (i ∷ free) n keep h =
    (omega arith, keep i h.1, h.2, FreeSlots-frame nodes nodes' free n keep h.3)

-- A slot that holds a node is not on the free list.
pub FreeSlots-NotIn :
    (nodes : List (Option Node)) (i : ℕ) (v : Node) (free : List ℕ)
    → slot nodes i ≡ some v
    → FreeSlots nodes free
    → NotIn i free
FreeSlots-NotIn nodes i v [] h f = tt
FreeSlots-NotIn nodes i v (j ∷ free) h f = (
  λ eq. clash (subst (λ k. slot nodes k ≡ some v) eq h) f.1,
  FreeSlots-NotIn nodes i v free h f.3,
)
  where
    clash : slot nodes j ≡ some v → slot nodes j ≡ none → ⊥
    clash a b = cc

-- The empty shard satisfies the invariant.
pub new-IsWf : {Map : Type 0} ⦃m : HashMap Map⦄ → IsWf {Map = Map} new []
unfolding new slot
new-IsWf ⦃m⦄ = record {
  links = record { at_head = refl; at_tail = refl; seg = tt; distinct = tt };
  empty_elsewhere = λ j a. refl;
  unique = tt;
  mapped = m.get-empty;
  free_slots = tt;
  count = omega arith;
}
