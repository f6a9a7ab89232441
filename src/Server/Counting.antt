-- ===== src/Server/Counting.antt =====
-- The metrics after a sequence of calls: what the counters and the histogram hold.
use hybird_kv.Prelude.{
  ℕ, zero, suc, ◌+◌, ◌%◌, ◌<◌, ◌≤◌, ◌≡◌, ◌≢◌, refl, sym, ◌∙◌, ap, subst, arith, List, [], ◌∷◌, some,
  ret, length, get_elem?, get_elem?-set_self, get_elem?-set_ne, length-set, length-replicate, set,
  replicate, max, leb, leb→le, if◌then◌else◌, Bool-cases, inl, inr, Bool, true, false, ◌&&◌, ltb,
  ◌==◌, ==_iff,
}
use hybird_kv.Engine.Word.{word, add_word, add_word-mod}
use hybird_kv.Server.Metrics.{LatencyHistogram, new_histogram, bucket_from, bump, record_latency}

-- Index `b` is the bucket of a latency: every bound before it is below the latency, and the bound
-- at it, if there is one, is not.
pub record IsBucket (micros : ℕ) (bounds : List ℕ) (b : ℕ) : Type 0 where
  pub in_range : b ≤ length bounds
  pub above : (i bound : ℕ) → i < b → get_elem? bounds i ≡ some bound → bound < micros
  pub within : (bound : ℕ) → get_elem? bounds b ≡ some bound → micros ≤ bound

bucket_from-add :
    (micros i : ℕ) (bounds : List ℕ) → bucket_from micros i bounds ≡ i + bucket_from micros 0 bounds
unfolding bucket_from
bucket_from-add micros i [] = omega arith
bucket_from-add micros i (bound ∷ bounds) =
    ground (arith, bucket_from-add micros (suc i) bounds, bucket_from-add micros 1 bounds)

one_on :
    (micros : ℕ) (bounds : List ℕ) → bucket_from micros 1 bounds ≡ suc (bucket_from micros 0 bounds)
one_on micros bounds = omega (arith, bucket_from-add micros 1 bounds)

later-above :
    (micros bound : ℕ) (bounds : List ℕ) (b : ℕ)
    → bound < micros
    → IsBucket micros bounds b
    → (i c : ℕ) → i < suc b
    → get_elem? (bound ∷ bounds) i ≡ some c
    → c < micros
later-above micros bound bounds b h k zero c lt e = ground (arith, e)
later-above micros bound bounds b h k (suc i) c lt e = k.above i c (omega arith) e

later :
    (micros bound : ℕ) (bounds : List ℕ) (b : ℕ)
    → bound < micros
    → IsBucket micros bounds b
    → IsBucket micros (bound ∷ bounds) (suc b)
later micros bound bounds b h k = record {
  in_range = omega (arith, k.in_range);
  above = λ i c lt e. later-above micros bound bounds b h k i c lt e;
  within = λ c e. k.within c e;
}

-- The bucket that `record` picks is the latency's.
pub bucket_from-IsBucket :
    (micros : ℕ) (bounds : List ℕ) → IsBucket micros bounds (bucket_from micros 0 bounds)
unfolding bucket_from
bucket_from-IsBucket micros [] = record {
  in_range = omega arith;
  above = λ i bound h e. elim h [ ];
  within = λ bound e. ground arith;
}
bucket_from-IsBucket micros (bound ∷ bounds) = elim (Bool-cases (leb micros bound)) [
  | inl fits ↦ rw fits (record {
    in_range = omega arith;
    above = λ i b h e. elim h [ ];
    within = λ b e. ground (arith, leb→le micros bound fits);
  })
  | inr over ↦ rw over (
      rw (one_on micros bounds) (
        later micros bound bounds _ (ground (arith, leb→le micros bound))
          (bucket_from-IsBucket micros bounds)))
]

-- The latency is above every bound before bucket `b` and not above the bound at it, if there is
-- one.
unfoldable pub falls_in : ℕ → List ℕ → ℕ → Bool
falls_in micros [] zero = true
falls_in micros [] (suc b) = false
falls_in micros (bound ∷ bounds) zero = leb micros bound
falls_in micros (bound ∷ bounds) (suc b) =
    let rest = falls_in micros bounds b in ltb bound micros && rest

bucket_from-falls_in :
    (micros : ℕ) (bounds : List ℕ) (b : ℕ)
    → (bucket_from micros 0 bounds == b) ≡ falls_in micros bounds b
unfolding bucket_from falls_in
bucket_from-falls_in micros [] zero = refl
bucket_from-falls_in micros [] (suc b) = ground arith
bucket_from-falls_in micros (bound ∷ bounds) zero = ground (arith, one_on micros bounds)
bucket_from-falls_in micros (bound ∷ bounds) (suc b) =
    ground (arith, one_on micros bounds, bucket_from-falls_in micros bounds b)

-- How many of the latencies fall in bucket `b`.
abbrev pub count_at : List ℕ → ℕ → List ℕ → ℕ
count_at bounds b [] = 0
count_at bounds b (micros ∷ history) =
    let rest = count_at bounds b history in if falls_in micros bounds b then suc rest else rest

abbrev pub sum : List ℕ → ℕ
sum [] = 0
sum (x ∷ xs) = x + sum xs

abbrev pub maximum : List ℕ → ℕ
maximum [] = 0
maximum (x ∷ xs) = max (maximum xs) x

-- The histogram stands for the latencies recorded, last first: every bucket for those that belong
-- to it, and the other counters for their number, sum and maximum, all but the maximum cut to a
-- word.
pub record Tracks (h : LatencyHistogram) (bounds history : List ℕ) : Type 0 where
  pub same_bounds : h.bounds_us ≡ bounds
  pub size : length h.buckets ≡ suc (length bounds)
  pub counted :
      (b : ℕ) → b ≤ length bounds → get_elem? h.buckets b ≡ some (count_at bounds b history % word)
  pub sampled : h.samples ≡ length history % word
  pub summed : h.sum_us ≡ sum history % word
  pub maximal : h.max_us ≡ maximum history

zeros : (n b : ℕ) → b < n → get_elem? (replicate {A = ℕ} n 0) b ≡ some 0
zeros zero b h = elim h [ ]
zeros (suc n) zero h = refl
zeros (suc n) (suc b) h = zeros n b (omega arith)

pub new_histogram-Tracks : (bounds : List ℕ) → Tracks (new_histogram bounds) bounds []
unfolding new_histogram
new_histogram-Tracks bounds = record {
  same_bounds = refl;
  size = length-replicate (suc (length bounds)) 0;
  counted = λ b h. zeros (suc (length bounds)) b (omega (arith, h));
  sampled = refl;
  summed = refl;
  maximal = refl;
}

bump-ret :
    (buckets : List ℕ) (i n : ℕ)
    → get_elem? buckets i ≡ some n
    → bump buckets i ≡ ret (set buckets i (add_word n 1))
unfolding bump
bump-ret buckets i n h = rw (h, bump)

ne_of : (a b : ℕ) → a == b ≡ false → a ≢ b
ne_of a b h e = ground arith

counted-after :
    (h : LatencyHistogram) (bounds history : List ℕ) (micros b : ℕ)
    → Tracks h bounds history
    → b ≤ length bounds
    → get_elem?
        (set h.buckets
          (bucket_from micros 0 bounds)
          (add_word (count_at bounds (bucket_from micros 0 bounds) history % word) 1))
        b
      ≡ some (count_at bounds b (micros ∷ history) % word)
counted-after h bounds history micros b t le =
    let i = bucket_from micros 0 bounds in
    let i_in : i ≤ length bounds = (bucket_from-IsBucket micros bounds).in_range in
    elim (Bool-cases (bucket_from micros 0 bounds == b)) [
      | inl same ↦ rw (sym (bucket_from-falls_in micros bounds b) ∙ same) (
          subst
            (λ c.
              get_elem? (set h.buckets i (add_word (count_at bounds i history % word) 1)) c
              ≡ some (suc (count_at bounds c history) % word))
            ((==_iff i b).0 same)
            (get_elem?-set_self h.buckets i _ (omega (arith, t.size, i_in))
              ∙ ap some (add_word-mod (count_at bounds i history) 1 ∙ omega arith)))
      | inr other ↦
          rw (sym (bucket_from-falls_in micros bounds b) ∙ other)
            (get_elem?-set_ne h.buckets _ (ne_of i b other) ∙ t.counted b le)
    ]

-- `record` on a histogram that stands for a history does not panic, and the new histogram stands
-- for the history with the latency, cut to a word.
pub record_latency-Tracks :
    (latency : ℕ) (h : LatencyHistogram) (bounds history : List ℕ)
    → Tracks h bounds history
    → (h' : LatencyHistogram) × (record_latency latency h ≡ ret h')
      × Tracks h' bounds (latency % word ∷ history)
unfolding record_latency
record_latency-Tracks latency h bounds history t =
    let micros = latency % word in
    let b = bucket_from micros 0 bounds in
    let k = bucket_from-IsBucket micros bounds in
    (
      record {
        bounds_us = h.bounds_us;
        buckets = set h.buckets b (add_word (count_at bounds b history % word) 1);
        sum_us = add_word h.sum_us micros;
        samples = add_word h.samples 1;
        max_us = max h.max_us micros;
      },
      rw t.same_bounds (rw (bump-ret h.buckets b _ (t.counted b k.in_range))),
      record {
        same_bounds = t.same_bounds;
        size = length-set h.buckets b _ ∙ t.size;
        counted = λ c le. counted-after h bounds history micros c t le;
        sampled = ap (λ n. add_word n 1) t.sampled ∙ add_word-mod (length history) 1 ∙ omega arith;
        summed =
            ap (λ n. add_word n micros) t.summed
            ∙ add_word-mod (sum history) micros
            ∙ ap (λ n. n % word) (omega arith);
        maximal = ap (λ n. max n micros) t.maximal;
      },
    )
