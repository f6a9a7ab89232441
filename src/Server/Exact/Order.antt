-- ===== src/Server/Exact/Order.antt =====
-- The comparison of `top_keys` in hkv-server/src/observation/exact.rs as an order of the entries.
use mathlib.Core.List.{Perm, foldr}
use mathlib.Core.List.Perm
use hybird_kv.Prelude.{
  ℕ, ◌≡◌, refl, sym, ap, ◌∙◌, true, false, Bool-cases, inl, inr, List, [], ◌∷◌, map, Bytes, take,
  arith, ◌==◌,
}
use hybird_kv.Server.Exact.{HotKeyCounts}
use hybird_kv.Server.Exact.Ranking.{
  hot_key, key_le, ranks_before, insert_ranked, sort_ranked, top_keys,
}

key_le_total : (a b : Bytes) → key_le a b ≡ false → key_le b a ≡ true
unfolding key_le
key_le_total [] b h = absurd (cc h)
key_le_total (c ∷ cs) [] h = refl
key_le_total (c ∷ cs) (d ∷ ds) h = ground (arith, key_le_total cs ds)

key_le_trans : (a b c : Bytes) → key_le a b ≡ true → key_le b c ≡ true → key_le a c ≡ true
unfolding key_le
key_le_trans [] b c h k = refl
key_le_trans (x ∷ a) [] c h k = absurd (cc h)
key_le_trans (x ∷ a) (y ∷ b) [] h k = absurd (cc k)
key_le_trans (x ∷ a) (y ∷ b) (z ∷ c) h k = ground (arith, key_le_trans a b c)

key_le_antisym : (a b : Bytes) → key_le a b ≡ true → key_le b a ≡ true → a ≡ b
unfolding key_le
key_le_antisym [] [] h k = refl
key_le_antisym [] (y ∷ b) h k = absurd (cc k)
key_le_antisym (x ∷ a) [] h k = absurd (cc h)
key_le_antisym (x ∷ a) (y ∷ b) h k = elim (Bool-cases (x == y)) [
  | inl same ↦
      let e : x ≡ y = ground (arith, same) in
      let t : a ≡ b = key_le_antisym a b (ground (arith, same)) (ground (arith, same)) in cc (e, t)
  | inr other ↦ absurd (ground (arith, other))
]

ranks_before_linear :
    (x y : Bytes × HotKeyCounts) → ranks_before x y ≡ false → ranks_before y x ≡ true
unfolding ranks_before
ranks_before_linear (a, x) (b, y) h = ground (arith, key_le_total a b)

ranks_before_trans :
    (x y z : Bytes × HotKeyCounts)
    → ranks_before x y ≡ true
    → ranks_before y z ≡ true
    → ranks_before x z ≡ true
unfolding ranks_before
ranks_before_trans (a, x) (b, y) (c, z) h k = ground (arith, key_le_trans a b c)

ranks_before_antisym :
    (x y : Bytes × HotKeyCounts) → ranks_before x y ≡ true → ranks_before y x ≡ true → x ≡ y
unfolding ranks_before
ranks_before_antisym (a, x) (b, y) h k =
    let total : x.total_accesses ≡ y.total_accesses = ground arith in
    let read : x.read_accesses ≡ y.read_accesses = ground arith in
    let write : x.write_accesses ≡ y.write_accesses = ground arith in
    let key : a ≡ b = key_le_antisym a b (ground arith) (ground arith) in
    λ i.
      (key i, record { total_accesses = total i; read_accesses = read i; write_accesses = write i })

insert_ranked_comm :
    (x y : Bytes × HotKeyCounts) (zs : List (Bytes × HotKeyCounts))
    → insert_ranked x (insert_ranked y zs) ≡ insert_ranked y (insert_ranked x zs)
unfolding insert_ranked
insert_ranked_comm x y [] =
    ground (arith, ranks_before_linear x y, ranks_before_linear y x, ranks_before_antisym x y)
insert_ranked_comm x y (z ∷ zs) = ground (
  arith,
  insert_ranked,
  ranks_before_linear x y,
  ranks_before_linear y x,
  ranks_before_antisym x y,
  ranks_before_trans x y z,
  ranks_before_trans y x z,
  insert_ranked_comm x y zs,
)

sort_ranked-foldr :
    (entries : List (Bytes × HotKeyCounts)) → sort_ranked entries ≡ foldr insert_ranked [] entries
unfolding sort_ranked
sort_ranked-foldr [] = refl
sort_ranked-foldr (x ∷ entries) = ap (insert_ranked x) (sort_ranked-foldr entries)

entries_set : IsSet (List (Bytes × HotKeyCounts))
entries_set = hlevel

-- The ranking does not depend on the order in which the map gives its entries.
pub top_keys-Perm :
    (entries entries' : List (Bytes × HotKeyCounts)) (limit : ℕ)
    → Perm entries entries'
    → top_keys entries limit ≡ top_keys entries' limit
unfolding top_keys
top_keys-Perm entries entries' limit p =
    ap (λ es. take limit (map hot_key es))
      (sort_ranked-foldr entries
        ∙ Perm.foldr-eq entries_set insert_ranked insert_ranked_comm p []
        ∙ sym (sort_ranked-foldr entries'))
