-- ===== src/Engine/Sharded/Expiring.antt =====
-- `purge_expired` over all shards of a valid engine.
use hybird_kv.Prelude.{
  ℕ, zero, suc, ◌+◌, ◌≤◌, ◌<◌, ◌≡◌, ◌≢◌, refl, sym, ◌∙◌, ap, List, [], ◌∷◌, arith, Outcome, ret,
  length, set, inl, inr, ◌==◌, ==_iff, Bool-cases, subst,
}
use hybird_kv.Engine.HashMap.{HashMap}
use hybird_kv.Engine.Shard.Links.{Items}
use hybird_kv.Engine.Memory.{purge_locked}
use hybird_kv.Engine.Memory.Cache.{live, dead}
use hybird_kv.Engine.Memory.Contents.{view}
use hybird_kv.Engine.Memory.Purging.{purge_locked-refines}
use hybird_kv.Engine.Sharded.{MemoryEngine, on_shard, purge_from, purge_expired}
use hybird_kv.Engine.Sharded.Routing.{IsValid, AreSound-length, items_at, on_shard-refines}

items_at-set_self :
    (xss : List Items) (i : ℕ) (ys : Items) → i < length xss → items_at (set xss i ys) i ≡ ys
items_at-set_self [] i ys h = elim h [ ]
items_at-set_self (xs ∷ xss) zero ys h = refl
items_at-set_self (xs ∷ xss) (suc i) ys h = items_at-set_self xss i ys (omega arith)

items_at-set_ne :
    (xss : List Items) (i j : ℕ) (ys : Items) → i ≢ j → items_at (set xss i ys) j ≡ items_at xss j
items_at-set_ne [] i j ys h = refl
items_at-set_ne (xs ∷ xss) zero zero ys h = absurd (h refl)
items_at-set_ne (xs ∷ xss) zero (suc j) ys h = refl
items_at-set_ne (xs ∷ xss) (suc i) zero ys h = refl
items_at-set_ne (xs ∷ xss) (suc i) (suc j) ys h = items_at-set_ne xss i j ys (λ e. h (ap suc e))

-- How many entries have expired in `k` caches, from that with index `i` on.
abbrev pub dead_from : ℕ → ℕ → ℕ → List Items → ℕ
dead_from now zero i xss = 0
dead_from now (suc k) i xss = dead now (view (items_at xss i)) + dead_from now k (suc i) xss

dead_from-set :
    (now k i j : ℕ) (xss : List Items) (ys : Items)
    → i < j
    → dead_from now k j (set xss i ys) ≡ dead_from now k j xss
dead_from-set now zero i j xss ys h = refl
dead_from-set now (suc k) i j xss ys h =
    let one : items_at (set xss i ys) j ≡ items_at xss j =
      items_at-set_ne xss i j ys (λ e. omega (arith, e)) in
    let more = dead_from-set now k i (suc j) xss ys (omega arith) in
    let first = ap (λ xs. dead now (view xs)) one in omega (arith, first, more)

live-empty : (now : ℕ) → live now [] ≡ []
unfolding live
live-empty now = refl

items_at-end : (xss : List Items) (j : ℕ) → length xss ≤ j → items_at xss j ≡ []
items_at-end [] j h = refl
items_at-end (xs ∷ xss) zero h = elim h [ ]
items_at-end (xs ∷ xss) (suc j) h = items_at-end xss j (omega arith)

module _ {Map : Type 0} ⦃m : HashMap Map⦄ (now : ℕ) where
  -- The engine after a purge from shard `i` on: the caches before it are as they were, the others
  -- have kept the entries that have not expired.
  pub record Purged (xss : List Items) (i count : ℕ) (run : Outcome (MemoryEngine Map × ℕ))
      : Type 0 where
    pub state : MemoryEngine Map
    pub items : List Items
    pub returns : run ≡ ret (state, count)
    pub valid : IsValid state items
    pub before : (j : ℕ) → j < i → items_at items j ≡ items_at xss j
    pub purged : (j : ℕ) → i ≤ j → view (items_at items j) ≡ live now (view (items_at xss j))

  purge_from-step :
      (k i removed r : ℕ) (e e1 : MemoryEngine Map)
      → on_shard e i (purge_locked now removed) ≡ ret (e1, r)
      → purge_from (suc k) now i removed e ≡ purge_from k now (suc i) r e1
  unfolding purge_from
  purge_from-step k i removed r e e1 h = rw (h, purge_from) refl

  purge_from-Purged :
      (k i removed : ℕ) (e : MemoryEngine Map) (xss : List Items)
      → IsValid e xss
      → i + k ≡ length e.shards
      → Purged xss i (removed + dead_from now k i xss) (purge_from k now i removed e)
  unfolding purge_from
  purge_from-Purged zero i removed e xss v h = record {
    state = e;
    items = xss;
    returns = ap (λ n. ret (e, n)) (omega arith);
    valid = v;
    before = λ j l. refl;
    purged = λ j l.
        let none_there : items_at xss j ≡ [] =
          items_at-end xss j (omega (arith, h, AreSound-length e.shards xss v.shards_sound)) in
        ap view none_there ∙ sym (ap (λ xs. live now (view xs)) none_there ∙ live-empty now);
  }
  purge_from-Purged (suc k) i removed e xss v h =
      let y =
        on_shard-refines e xss v i (purge_locked now removed)
          (λ es. (live now es, removed + dead now es)) (omega (arith, h))
          (λ l xs other c. purge_locked-refines now removed l xs other c) in
      let in_range : i < length xss =
        omega (arith, h, AreSound-length e.shards xss v.shards_sound) in
      let r =
        purge_from-Purged k (suc i) (removed + dead now (view (items_at xss i))) y.state
          (set xss i y.items) y.valid (omega (arith, h, v.masked, y.valid.masked, y.same_mask)) in
      let counted = dead_from-set now k i (suc i) xss y.items (omega arith) in
      let here : view (items_at r.items i) ≡ live now (view (items_at xss i)) =
        ap view (r.before i (omega arith) ∙ items_at-set_self xss i y.items in_range) ∙ y.viewed in
      record {
        state = r.state;
        items = r.items;
        returns =
            purge_from-step k i removed _ e y.state y.returns
            ∙ r.returns
            ∙ ap (λ n. ret (r.state, n)) (omega (arith, counted));
        valid = r.valid;
        before = λ j l.
            r.before j (omega arith) ∙ items_at-set_ne xss i j y.items (λ eq. omega (arith, eq));
        purged = λ j l. elim (Bool-cases (i == j)) [
          | inl same ↦
              subst (λ k. view (items_at r.items k) ≡ live now (view (items_at xss k)))
                ((==_iff i j).0 same) here
          | inr other ↦
              r.purged j (ground (arith, other))
              ∙ ap (λ xs. live now (view xs))
                  (items_at-set_ne xss i j y.items (λ eq. ground (arith, eq, other)))
        ];
      }

  -- On a valid engine `purge_expired` does not panic. Every shard's cache keeps exactly its entries
  -- that have not expired, in their order, the result is the number of entries that have expired in
  -- all shards together, and the engine stays valid.
  pub purge_expired-Purged :
      (e : MemoryEngine Map) (xss : List Items)
      → IsValid e xss
      → Purged xss 0 (dead_from now (length e.shards) 0 xss) (purge_expired now e)
  unfolding purge_expired
  purge_expired-Purged e xss v =
      let none_yet : 0 + dead_from now (length e.shards) 0 xss
          ≡ dead_from now (length e.shards) 0 xss =
        omega arith in
      subst (λ n. Purged xss 0 n (purge_from (length e.shards) now 0 0 e)) none_yet
        (purge_from-Purged (length e.shards) 0 0 e xss v (omega arith))
