-- ===== src/Engine/Sharded/Budget.antt =====
-- `evict_if_needed` on a valid engine: it stops within the byte budget or with nothing to evict,
-- and it drops only least recently used entries.
use Prim.Native.Nat.{bit_and}
use hybird_kv.Prelude.{
  ℕ, zero, suc, ◌+◌, ◌%◌, ◌<◌, ◌≤◌, ◌≡◌, refl, sym, ◌∙◌, ap, subst, List, [], ◌∷◌, arith, ret, true,
  false, Bool, Outcome, set, length, inl, inr, ◌⊎◌, Bool-cases, leb, leb→le,
}
use hybird_kv.Engine.Word.{word, add_word, sub_word}
use hybird_kv.Engine.HashMap.{HashMap}
use hybird_kv.Engine.Shard.Links.{Payload, Items}
use hybird_kv.Engine.Sharded.{MemoryEngine, evict_scan, evict_loop}
use hybird_kv.Engine.Sharded.Routing.{IsValid, items_at, total_all}
use hybird_kv.Engine.Sharded.Methods.{bit_and-le}
use hybird_kv.Engine.Sharded.Eviction.{
  Evicts, done, oldest, count_all, count-set, evict_one-empty, evict_one-oldest,
}

-- The shards that a scan from `start` over `n` offsets looks at are empty.
abbrev pub NothingFrom : List Items → ℕ → ℕ → ℕ → ℕ → Type 0
NothingFrom xss mask start offset n =
    (o : ℕ) → o < n → items_at xss (bit_and (add_word start (offset + o)) mask) ≡ []

items-cases :
    (xs : Items) → (xs ≡ []) ⊎ ((i : ℕ) × (e : Payload) × (ys : Items) × (xs ≡ (i, e) ∷ ys))
items-cases [] = inl refl
items-cases ((i, e) ∷ ys) = inr (i, e, ys, refl)

further :
    (xss : List Items) (mask start offset n : ℕ)
    → items_at xss (bit_and (add_word start offset) mask) ≡ []
    → NothingFrom xss mask start (offset + 1) n
    → NothingFrom xss mask start offset (suc n)
further xss mask start offset n h rest zero lt = let e : offset + 0 ≡ offset = omega arith in rw e h
further xss mask start offset n h rest (suc o) lt =
    let e : offset + suc o ≡ offset + 1 + o = omega arith in rw e (rest o (omega arith))

module _ {Map : Type 0} ⦃m : HashMap Map⦄ where
  -- What a scan over the shards finds: nothing to evict, or one least recently used entry.
  data Scanned (xss : List Items) (limit mask n offset start : ℕ)
      (step : Outcome (MemoryEngine Map × Bool)) : Type 0 where
    barren :
        (e' : MemoryEngine Map)
        → step ≡ ret (e', false)
        → IsValid e' xss
        → e'.max_bytes ≡ limit
        → e'.shard_mask ≡ mask
        → NothingFrom xss mask start offset n
        → Scanned xss limit mask n offset start step
    evicted :
        (e' : MemoryEngine Map) (i slot : ℕ) (p : Payload) (ys : Items)
        → step ≡ ret (e', true)
        → items_at xss i ≡ (slot, p) ∷ ys
        → IsValid e' (set xss i ys)
        → e'.max_bytes ≡ limit
        → e'.shard_mask ≡ mask
        → Scanned xss limit mask n offset start step

  one_further :
      (xss : List Items) (limit mask n offset start : ℕ) (step : Outcome (MemoryEngine Map × Bool))
      → items_at xss (bit_and (add_word start offset) mask) ≡ []
      → Scanned xss limit mask n (offset + 1) start step
      → Scanned xss limit mask (suc n) offset start step
  one_further xss limit mask n offset start step h (barren e' r v hl hm rest) =
      barren e' r v hl hm (further xss mask start offset n h rest)
  one_further xss limit mask n offset start step h (evicted e' i slot p ys r full v hl hm) =
      evicted e' i slot p ys r full v hl hm

  evict_scan-Scanned :
      (n offset start : ℕ) (e : MemoryEngine Map) (xss : List Items) (limit mask : ℕ)
      → e.max_bytes ≡ limit
      → e.shard_mask ≡ mask
      → IsValid e xss
      → Scanned xss limit mask n offset start (evict_scan n offset start e)
  unfolding evict_scan
  evict_scan-Scanned zero offset start e xss limit mask hl hm v =
      barren e refl v hl hm (λ o h. elim h [ ])
  evict_scan-Scanned (suc n) offset start e xss limit mask hl hm v =
      let i = bit_and (add_word start offset) e.shard_mask in
      let lt : i < length e.shards =
        omega (arith, v.masked, bit_and-le (add_word start offset) e.shard_mask) in
      elim (items-cases (items_at xss i)) [
        | inl empty ↦
            let (e', one, v', l', m') = evict_one-empty e xss v i lt empty in
            rw one (
              one_further xss limit mask n offset start _
                (subst (λ k. items_at xss (bit_and (add_word start offset) k) ≡ []) hm empty)
                (evict_scan-Scanned n (offset + 1) start e' xss limit mask (l' ∙ hl) (m' ∙ hm) v'))
        | inr (slot, p, ys, full) ↦
            let (e', one, v', l', m') = evict_one-oldest e xss v i lt slot p ys full in
            evicted (record e' { used_bytes = sub_word e'.used_bytes p.size }) i slot p ys (rw one)
              full v' (l' ∙ hl) (m' ∙ hm)
      ]

  -- The eviction returns: from the entries `xss` it has dropped least recently used ones, each
  -- while the engine was over its limit, and it stopped within the budget, or after a scan over all
  -- shards that found nothing.
  pub record Settles (step : Outcome (MemoryEngine Map)) (e : MemoryEngine Map) (xss : List Items)
      : Type 0 where
    pub state : MemoryEngine Map
    pub items : List Items
    pub returns : step ≡ ret state
    pub valid : IsValid state items
    pub evicts : Evicts e.max_bytes xss items
    pub stops :
        (state.used_bytes ≤ e.max_bytes)
        ⊎ ((start : ℕ) × NothingFrom items e.shard_mask start 0 (length state.shards))

  settle :
      (f : ℕ) (e e' : MemoryEngine Map) (xss : List Items) (i slot : ℕ) (p : Payload) (ys : Items)
      → e.max_bytes < total_all xss % word
      → items_at xss i ≡ (slot, p) ∷ ys
      → e'.max_bytes ≡ e.max_bytes
      → e'.shard_mask ≡ e.shard_mask
      → Settles (evict_loop f e') e' (set xss i ys)
      → Settles (evict_loop f e') e xss
  settle f e e' xss i slot p ys over full hl hm r = record {
    state = r.state;
    items = r.items;
    returns = r.returns;
    valid = r.valid;
    evicts =
        oldest xss r.items i slot p ys over full
          (subst (λ k. Evicts k (set xss i ys) r.items) hl r.evicts);
    stops =
        subst
          (λ k.
            (r.state.used_bytes ≤ k)
            ⊎ ((start : ℕ) × NothingFrom r.items e.shard_mask start 0 (length r.state.shards)))
          hl
          (subst
            (λ k.
              (r.state.used_bytes ≤ e'.max_bytes)
              ⊎ ((start : ℕ) × NothingFrom r.items k start 0 (length r.state.shards)))
            hm r.stops);
  }

  -- The loop of `evict_if_needed` on a valid engine, with more fuel than the engine has entries,
  -- does not panic. What it drops are the least recently used entries of shards, one at a time and
  -- only while the sizes of all entries, modulo 2^64, are over the limit, the engine stays valid,
  -- and at the end the byte counter is within the limit or no shard in the range of the last scan
  -- has an entry.
  pub evict_loop-Settles :
      (f : ℕ) (e : MemoryEngine Map) (xss : List Items)
      → count_all xss < f
      → IsValid e xss
      → Settles (evict_loop f e) e xss
  unfolding evict_loop
  evict_loop-Settles zero e xss h v = elim h [ ]
  evict_loop-Settles (suc f) e xss h v =
      let e1 : MemoryEngine Map = record e { eviction_cursor = add_word e.eviction_cursor 1 } in
      let v1 : IsValid e1 xss = record {
        shards_sound = v.shards_sound;
        used = v.used;
        masked = v.masked;
      } in
      let scanned =
        evict_scan-Scanned (length e.shards) 0 e.eviction_cursor e1 xss e.max_bytes e.shard_mask
          refl refl v1 in
      elim (Bool-cases (leb e.used_bytes e.max_bytes)) [
        | inl fits ↦ record {
          state = e;
          items = xss;
          returns = rw (fits, evict_loop);
          valid = v;
          evicts = done xss;
          stops = inl (leb→le e.used_bytes e.max_bytes fits);
        }
        | inr over ↦ elim scanned [
          | barren e' r v' hl hm nothing ↦ record {
            state = e';
            items = xss;
            returns = rw (over, evict_loop) (rw r);
            valid = v';
            evicts = done xss;
            stops = inr (
              e.eviction_cursor,
              subst (NothingFrom xss e.shard_mask e.eviction_cursor 0)
                  (v.masked ∙ ap (λ k. k + 1) (sym hm) ∙ sym v'.masked) nothing,
            );
          }
          | evicted e' i slot p ys r full v' hl hm ↦
              rw (over, evict_loop)
                (rw r (
                  settle f e e' xss i slot p ys (ground (arith, over, v.used)) full hl hm (
                    evict_loop-Settles f e' (set xss i ys)
                      (omega (arith, count-set xss i (slot, p) ys full)) v')))
        ]
      ]
