-- ===== src/Server/Percentile.antt =====
-- `percentile_us` from the rank on: which bucket answers a percentile.
use hybird_kv.Prelude.{
  ℕ, suc, ◌+◌, ◌-◌, ◌<◌, ◌≤◌, ◌≡◌, ◌∙◌, ap, arith, List, [], ◌∷◌, none, some, length, take,
  get_elem?, min, ltb, ltb→lt, false, true, Bool-cases, inl, inr,
}
use hybird_kv.Engine.Word.{word}
use hybird_kv.Server.Metrics.{LatencyHistogram, percentile_from}
use hybird_kv.Server.Counting.{sum}

-- The bound of bucket `idx`, or the maximum for the bucket past all bounds.
abbrev pub bound_or_max : LatencyHistogram → ℕ → ℕ
bound_or_max h idx = elim (get_elem? h.bounds_us idx) [ none ↦ h.max_us | some bound ↦ bound ]

-- Bucket `idx` of the list is the first one up to which at least `target` latencies lie.
pub record Reaches (counts : List ℕ) (before target idx : ℕ) : Type 0 where
  pub in_range : idx < length counts
  pub below : before + sum (take idx counts) < target
  pub reached : target ≤ before + sum (take (suc idx) counts)

not_lt : (a b : ℕ) → ltb a b ≡ false → b ≤ a
not_lt a b h = ground arith

module _ (h : LatencyHistogram) (target idx before count : ℕ) (counts : List ℕ)
    (fits : before + count < word) where
  exact : min (before + count) (word - 1) ≡ before + count
  exact = omega arith

  step_past :
      ltb (before + count) target ≡ true
      → percentile_from h target idx before (count ∷ counts)
        ≡ percentile_from h target (suc idx) (before + count) counts
  unfolding percentile_from
  step_past less = rw (exact, percentile_from) (rw less)

  stop_at :
      ltb (before + count) target ≡ false
      → percentile_from h target idx before (count ∷ counts) ≡ bound_or_max h idx
  unfolding percentile_from
  stop_at enough = rw (exact, percentile_from) (rw enough)

percentile_from-Reaches :
    (h : LatencyHistogram) (target idx before : ℕ) (counts : List ℕ)
    → before < target
    → target ≤ before + sum counts
    → before + sum counts < word
    → (j : ℕ) × Reaches counts before target j
      × (percentile_from h target idx before counts ≡ bound_or_max h (idx + j))
percentile_from-Reaches h target idx before [] lo hi fits = absurd (omega arith)
percentile_from-Reaches h target idx before (count ∷ counts) lo hi fits =
    let back : idx ≡ idx + 0 = omega arith in
    elim (Bool-cases (ltb (before + count) target)) [
      | inl less ↦
          let (j, r, e) =
            percentile_from-Reaches h target (suc idx) (before + count) counts
              (ltb→lt (before + count) target less) (omega arith) (omega arith) in
          let shift : suc idx + j ≡ idx + suc j = omega arith in
          (
            suc j,
            record {
              in_range = omega (arith, r.in_range);
              below = omega (arith, r.below);
              reached = omega (arith, r.reached);
            },
            step_past h target idx before count counts (omega arith) less
                ∙ e
                ∙ ap (bound_or_max h) shift,
          )
      | inr enough ↦ (
        0,
        record {
          in_range = omega arith;
          below = omega arith;
          reached = omega (arith, not_lt (before + count) target enough);
        },
        stop_at h target idx before count counts (omega arith) enough ∙ ap (bound_or_max h) back,
      )
    ]

-- If the buckets count at least `target` latencies, at least one and fewer than 2^64, then the
-- answer is that of the first bucket up to which `target` of them lie: its bound, or the maximum if
-- it is the bucket past all bounds.
pub percentile-Reaches :
    (h : LatencyHistogram) (target : ℕ)
    → 1 ≤ target
    → target ≤ sum h.buckets
    → sum h.buckets < word
    → (idx : ℕ) × Reaches h.buckets 0 target idx
      × (percentile_from h target 0 0 h.buckets ≡ bound_or_max h idx)
percentile-Reaches h target lo hi fits =
    let (j, r, e) =
      percentile_from-Reaches h target 0 0 h.buckets lo (omega (arith, hi)) (omega (arith, fits)) in
    let back : 0 + j ≡ j = omega arith in (j, r, e ∙ ap (bound_or_max h) back)
