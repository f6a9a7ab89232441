-- ===== src/Engine/Sharded/Routing.antt =====
-- The invariant of the whole engine, and what a step on one shard does to it.
use hybird_kv.Prelude.{
  ℕ, zero, suc, ◌+◌, ◌%◌, ◌<◌, ◌≡◌, refl, sym, ◌∙◌, ap, List, [], ◌∷◌, arith, some, ret, Outcome,
  get_elem?, set, length, length-set,
}
use hybird_kv.Engine.Word.{word}
use hybird_kv.Engine.HashMap.{HashMap}
use hybird_kv.Engine.Heap.{Ascending}
use hybird_kv.Engine.Shard.{ShardInner}
use hybird_kv.Engine.Shard.Links.{Items}
use hybird_kv.Engine.Shard.Wf.{IsWf}
use hybird_kv.Engine.Memory.{Locked}
use hybird_kv.Engine.Memory.Cache.{Entry}
use hybird_kv.Engine.Memory.Contents.{IsConsistent, Yields, All, HasSize, Scheduled, total, view}
use hybird_kv.Engine.Sharded.{MemoryEngine, shard_at, lock, unlock, on_shard}

-- The part of the invariant that one shard has to itself.
pub record IsSound {Map : Type 0} ⦃m : HashMap Map⦄ (s : ShardInner Map) (xs : Items) : Type 0 where
  pub wf : IsWf s xs
  pub sized : All HasSize xs
  pub scheduled : All (Scheduled s.ttl_heap) xs
  pub ascending : Ascending s.ttl_heap

abbrev pub AreSound : {Map : Type 0} ⦃m : HashMap Map⦄ → List (ShardInner Map) → List Items → Type 0
AreSound [] [] = Unit
AreSound [] (xs ∷ xss) = ⊥
AreSound (s ∷ ss) [] = ⊥
AreSound (s ∷ ss) (xs ∷ xss) = IsSound s xs × AreSound ss xss

abbrev pub total_all : List Items → ℕ
total_all [] = 0
total_all (xs ∷ xss) = total xs + total_all xss

-- Every shard is sound, the byte counter stands for all of them, and the mask is for their number.
pub record IsValid {Map : Type 0} ⦃m : HashMap Map⦄ (e : MemoryEngine Map) (xss : List Items)
    : Type 0 where
  pub shards_sound : AreSound e.shards xss
  pub used : e.used_bytes ≡ total_all xss % word
  pub masked : length e.shards ≡ e.shard_mask + 1

abbrev pub items_at : List Items → ℕ → Items
items_at [] i = []
items_at (xs ∷ xss) zero = xs
items_at (xs ∷ xss) (suc i) = items_at xss i

abbrev pub total_others : List Items → ℕ → ℕ
total_others [] i = 0
total_others (xs ∷ xss) zero = total_all xss
total_others (xs ∷ xss) (suc i) = total xs + total_others xss i

pub total_all-split :
    (xss : List Items) (i : ℕ) → total_all xss ≡ total_others xss i + total (items_at xss i)
total_all-split [] i = omega arith
total_all-split (xs ∷ xss) zero = omega arith
total_all-split (xs ∷ xss) (suc i) = omega (arith, total_all-split xss i)

pub total_all-set :
    (xss : List Items) (i : ℕ) (ys : Items)
    → i < length xss
    → total_all (set xss i ys) ≡ total_others xss i + total ys
total_all-set [] i ys h = elim h [ ]
total_all-set (xs ∷ xss) zero ys h = omega arith
total_all-set (xs ∷ xss) (suc i) ys h = omega (arith, total_all-set xss i ys (omega arith))

module _ {Map : Type 0} ⦃m : HashMap Map⦄ where
  pub AreSound-length :
      (ss : List (ShardInner Map)) (xss : List Items) → AreSound ss xss → length ss ≡ length xss
  AreSound-length [] [] h = refl
  AreSound-length [] (xs ∷ xss) h = absurd h
  AreSound-length (s ∷ ss) [] h = absurd h
  AreSound-length (s ∷ ss) (xs ∷ xss) h = ap suc (AreSound-length ss xss h.1)

  pub AreSound-at :
      (ss : List (ShardInner Map)) (xss : List Items) (i : ℕ)
      → AreSound ss xss
      → i < length ss
      → (s : ShardInner Map) × (get_elem? ss i ≡ some s) × IsSound s (items_at xss i)
  AreSound-at [] xss i h lt = elim lt [ ]
  AreSound-at (s ∷ ss) [] i h lt = absurd h
  AreSound-at (s ∷ ss) (xs ∷ xss) zero h lt = (s, refl, h.0)
  AreSound-at (s ∷ ss) (xs ∷ xss) (suc i) h lt = AreSound-at ss xss i h.1 (omega arith)

  pub AreSound-set :
      (ss : List (ShardInner Map)) (xss : List Items) (i : ℕ) (s : ShardInner Map) (xs : Items)
      → AreSound ss xss
      → IsSound s xs
      → AreSound (set ss i s) (set xss i xs)
  AreSound-set [] [] i s xs h k = tt
  AreSound-set [] (ys ∷ xss) i s xs h k = absurd h
  AreSound-set (t ∷ ss) [] i s xs h k = absurd h
  AreSound-set (t ∷ ss) (ys ∷ xss) zero s xs h k = (k, h.1)
  AreSound-set (t ∷ ss) (ys ∷ xss) (suc i) s xs h k = (h.0, AreSound-set ss xss i s xs h.1 k)

-- The step of the engine returns `p.1`; of the shards' caches only that at `i` changes, to `p.0`,
-- and the engine's limit and its mask stay.
pub record EngineYields {Map R : Type 0} ⦃m : HashMap Map⦄ (step : Outcome (MemoryEngine Map × R))
    (e : MemoryEngine Map) (xss : List Items) (i : ℕ) (p : List Entry × R) : Type 0 where
  pub state : MemoryEngine Map
  pub items : Items
  pub returns : step ≡ ret (state, p.1)
  pub valid : IsValid state (set xss i items)
  pub viewed : view items ≡ p.0
  pub same_limit : state.max_bytes ≡ e.max_bytes
  pub same_mask : state.shard_mask ≡ e.shard_mask

pub shard_at-ret :
    {Map : Type 0} (e : MemoryEngine Map) (i : ℕ) (s : ShardInner Map)
    → get_elem? e.shards i ≡ some s
    → shard_at e i ≡ ret s
unfolding shard_at
shard_at-ret e i s h = ground arith

on_shard-ret :
    {Map R : Type 0} (e : MemoryEngine Map) (i : ℕ) (step : Locked Map → Outcome (Locked Map × R))
    (s : ShardInner Map) (l : Locked Map) (r : R)
    → get_elem? e.shards i ≡ some s
    → step (lock e s) ≡ ret (l, r)
    → on_shard e i step ≡ ret (unlock e i l, r)
unfolding on_shard
on_shard-ret e i step s l r at h = rw (shard_at-ret e i s at) (rw h)

module _ {Map R : Type 0} ⦃m : HashMap Map⦄ (e : MemoryEngine Map) (xss : List Items)
    (v : IsValid e xss) where
  -- A step that does on a consistent shard what a cache does, does so on the engine.
  pub on_shard-refines :
      (i : ℕ) (step : Locked Map → Outcome (Locked Map × R)) (op : List Entry → List Entry × R)
      → i < length e.shards
      → ((l : Locked Map) (xs : Items) (other : ℕ)
          → IsConsistent l xs other
          → Yields (step l) other (op (view xs)))
      → EngineYields (on_shard e i step) e xss i (op (view (items_at xss i)))
  on_shard-refines i step op lt refines =
      let (s, at, sound) = AreSound-at e.shards xss i v.shards_sound lt in
      let n = AreSound-length e.shards xss v.shards_sound in
      let c : IsConsistent (lock e s) (items_at xss i) (total_others xss i) = record {
        wf = sound.wf;
        sized = sound.sized;
        used = v.used ∙ ap (λ t. t % word) (total_all-split xss i);
        scheduled = sound.scheduled;
        ascending = sound.ascending;
      } in
      let y = refines (lock e s) (items_at xss i) (total_others xss i) c in
      record {
        state = unlock e i y.state;
        items = y.items;
        returns = on_shard-ret e i step s y.state _ at y.returns;
        valid = record {
          shards_sound = AreSound-set e.shards xss i y.state.inner y.items v.shards_sound (record {
            wf = y.consistent.wf;
            sized = y.consistent.sized;
            scheduled = y.consistent.scheduled;
            ascending = y.consistent.ascending;
          });
          used =
              y.consistent.used
              ∙ ap (λ t. t % word) (sym (total_all-set xss i y.items (omega arith)));
          masked = length-set e.shards i y.state.inner ∙ v.masked;
        };
        viewed = y.viewed;
        same_limit = refl;
        same_mask = refl;
      }
