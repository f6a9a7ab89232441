-- ===== src/Engine/Sharded/Eviction.antt =====
-- One eviction on a valid engine: it takes the least recently used entry of a shard, if there is
-- one.
use hybird_kv.Prelude.{
  ℕ, zero, suc, ◌+◌, ◌%◌, ◌<◌, ◌≡◌, refl, sym, ◌∙◌, ap, subst, List, [], ◌∷◌, arith, none, some,
  ret, get_elem?, set, length, length-set,
}
use hybird_kv.Engine.Word.{word, sub_word, sub_word-mod}
use hybird_kv.Engine.HashMap.{HashMap}
use hybird_kv.Engine.Shard.{ShardInner, pop_lru}
use hybird_kv.Engine.Shard.Links.{Payload, Items}
use hybird_kv.Engine.Shard.Remove.{after_remove_idx, remove_idx-IsWf, remove_idx-ret}
use hybird_kv.Engine.Memory.Contents.{total}
use hybird_kv.Engine.Sharded.{MemoryEngine, evict_one_from_shard}
use hybird_kv.Engine.Sharded.Routing.{
  IsSound, AreSound, IsValid, items_at, total_all, total_others, total_all-set, total_all-split,
  AreSound-at, AreSound-set, AreSound-length, shard_at-ret,
}

abbrev pub count_all : List Items → ℕ
count_all [] = 0
count_all (xs ∷ xss) = length xs + count_all xss

-- A number of evictions, each of the least recently used entry of a shard while the sizes of all
-- entries, as the byte counter holds them, are over the limit.
pub data Evicts (limit : ℕ) : List Items → List Items → Type 0 where
  done : (xss : List Items) → Evicts limit xss xss
  oldest :
      (xss zss : List Items) (i slot : ℕ) (e : Payload) (ys : Items)
      → limit < total_all xss % word
      → items_at xss i ≡ (slot, e) ∷ ys
      → Evicts limit (set xss i ys) zss
      → Evicts limit xss zss

pub count-set :
    (xss : List Items) (i : ℕ) (x : ℕ × Payload) (ys : Items)
    → items_at xss i ≡ x ∷ ys
    → count_all (set xss i ys) + 1 ≡ count_all xss
count-set [] i x ys h = cc
count-set (xs ∷ xss) zero x ys h = omega (arith, ap (length {A = ℕ × Payload}) h)
count-set (xs ∷ xss) (suc i) x ys h = omega (arith, count-set xss i x ys h)

set-items_at : (xss : List Items) (i : ℕ) → set xss i (items_at xss i) ≡ xss
set-items_at [] i = refl
set-items_at (xs ∷ xss) zero = refl
set-items_at (xs ∷ xss) (suc i) = ap (◌∷◌ xs) (set-items_at xss i)

module _ {Map : Type 0} ⦃m : HashMap Map⦄ where
  pop_lru-empty : (s : ShardInner Map) → IsSound s [] → pop_lru s ≡ ret (s, none)
  unfolding pop_lru
  pop_lru-empty s h = ground (arith, h.wf.links.at_head)

  pop_lru-oldest :
      (s : ShardInner Map) (i : ℕ) (e : Payload) (ys : Items)
      → IsSound s ((i, e) ∷ ys)
      → (pop_lru s ≡ ret (after_remove_idx s [] i e ys, some e.size))
        × IsSound (after_remove_idx s [] i e ys) ys
  unfolding pop_lru
  pop_lru-oldest s i e ys h = (
    rw (h.wf.links.at_head, pop_lru) (remove_idx-ret s [] i e ys h.wf),
    record {
      wf = remove_idx-IsWf s [] i e ys h.wf;
      sized = h.sized.1;
      scheduled = h.scheduled.1;
      ascending = h.ascending;
    },
  )

  module _ (e : MemoryEngine Map) (xss : List Items) (v : IsValid e xss) (i : ℕ)
      (lt : i < length e.shards) where
    -- The shard and its items.
    here : (s : ShardInner Map) × (get_elem? e.shards i ≡ some s) × IsSound s (items_at xss i)
    here = AreSound-at e.shards xss i v.shards_sound lt

    pub evict_one-empty :
        items_at xss i ≡ []
        → (e' : MemoryEngine Map) × (evict_one_from_shard e i ≡ ret (e', none))
          × IsValid e' xss
          × (e'.max_bytes ≡ e.max_bytes)
          × (e'.shard_mask ≡ e.shard_mask)
    unfolding evict_one_from_shard
    evict_one-empty empty =
        let s = here.0 in
        let sound : IsSound s [] = subst (IsSound s) empty here.2 in
        (
          record e { shards = set e.shards i s },
          rw (shard_at-ret e i s here.1) (rw (pop_lru-empty s sound)),
          record {
            shards_sound =
                subst (AreSound (set e.shards i s)) (set-items_at xss i)
                  (AreSound-set e.shards xss i s (items_at xss i) v.shards_sound here.2);
            used = v.used;
            masked = length-set e.shards i s ∙ v.masked;
          },
          refl,
          refl,
        )

    pub evict_one-oldest :
        (slot : ℕ) (p : Payload) (ys : Items)
        → items_at xss i ≡ (slot, p) ∷ ys
        → (e' : MemoryEngine Map) × (evict_one_from_shard e i ≡ ret (e', some p.size))
          × IsValid (record e' { used_bytes = sub_word e'.used_bytes p.size }) (set xss i ys)
          × (e'.max_bytes ≡ e.max_bytes)
          × (e'.shard_mask ≡ e.shard_mask)
    unfolding evict_one_from_shard
    evict_one-oldest slot p ys full =
        let s = here.0 in
        let popped = pop_lru-oldest s slot p ys (subst (IsSound s) full here.2) in
        let s' = after_remove_idx s [] slot p ys in
        let n = AreSound-length e.shards xss v.shards_sound in
        (
          record e { shards = set e.shards i s' },
          rw (shard_at-ret e i s here.1) (rw (popped.0)),
          record {
            shards_sound = AreSound-set e.shards xss i s' ys v.shards_sound popped.1;
            used =
                ap (λ u. sub_word u p.size) (v.used ∙ ap (λ t. t % word) (before full))
                ∙ sub_word-mod (total_others xss i + total ys) p.size
                ∙ ap (λ t. t % word) (sym (total_all-set xss i ys (omega arith)));
            masked = length-set e.shards i s' ∙ v.masked;
          },
          refl,
          refl,
        )
      where
        before :
            items_at xss i ≡ (slot, p) ∷ ys → total_all xss ≡ total_others xss i + total ys + p.size
        before h = omega (arith, total_all-split xss i, ap total h)
