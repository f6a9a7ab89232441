-- ===== src/Engine/Sharded/Building.antt =====
-- The constructor of the engine: the number of shards and its mask, and the empty engine's
-- invariant.
use native.Mathlib.Nat.{pow-suc, mul_assoc}
use hybird_kv.Prelude.{
  ℕ, zero, suc, ◌-◌, ◌*◌, ◌^◌, ◌<◌, ◌≤◌, ◌≡◌, arith, ret, replicate, inl, inr, Bool-cases, leb,
  leb→le, max,
}
use hybird_kv.Engine.HashMap.{HashMap}
use hybird_kv.Engine.Shard.{new}
use hybird_kv.Engine.Sharded.{MemoryEngine, power_from, normalize_shard_count}

doubled : (f p : ℕ) → 2 ^ f * (2 * p) ≡ 2 ^ suc f * p
doubled f p = rw (pow-suc, mul_assoc)

power_from-ret :
    (f p count : ℕ)
    → p < 2 * count
    → count ≤ 2 ^ f * p
    → (n k : ℕ) × (power_from (suc f) p count ≡ ret n)
      × (n ≡ 2 ^ k * p)
      × (count ≤ n)
      × (n < 2 * count)
unfolding power_from
power_from-ret zero p count h b =
    (p, 0, ground (arith, leb→le count p), omega arith, omega arith, h)
power_from-ret (suc f) p count h b = elim (Bool-cases (leb count p)) [
  | inl fits ↦ (p, 0, rw (fits, power_from), omega arith, leb→le count p fits, h)
  | inr over ↦
      let small : p < count = ground (arith, leb→le count p) in
      let (n, k, r, e, lo, hi) =
        power_from-ret f (2 * p) count (omega arith) (omega (arith, doubled f p)) in
      (n, suc k, rw (over, power_from) r, omega (arith, doubled k p), lo, hi)
]

-- `normalize_shard_count` of a count up to 2^63 is the next power of two: it is not below the
-- count (a count of 0 is taken as 1), and it is below twice the count.
pub normalize_shard_count-ret :
    (count : ℕ)
    → count ≤ 2 ^ 63
    → (n k : ℕ) × (normalize_shard_count count ≡ ret n)
      × (n ≡ 2 ^ k)
      × (max count 1 ≤ n)
      × (n < 2 * max count 1)
unfolding normalize_shard_count
normalize_shard_count-ret count h =
    let (n, k, r, e, lo, hi) = power_from-ret 63 1 (max count 1) (omega arith) (omega arith) in
    (n, k, r, omega arith, omega arith, hi)

abbrev blank : (Map : Type 0) ⦃m : HashMap Map⦄ → ℕ → ℕ → MemoryEngine Map
blank Map n max_bytes = record {
  shards = replicate n new;
  shard_mask = n - 1;
  max_bytes = max_bytes;
  used_bytes = 0;
  eviction_cursor = 0;
  next_ttl_token = 1;
}
