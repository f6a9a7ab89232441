-- ===== src/Server/Exact/Ranking.antt =====
-- hkv-server/src/observation/exact.rs: `top_keys`, the ranking of the hottest keys. `sort_by` keeps
-- the order of equal entries. `entries` are those of the map in the order in which it gives them.
use mathlib.Core.List.{Perm}
use mathlib.Core.List.Perm
use hybird_kv.Prelude.{
  ℕ, suc, ◌≤◌, ◌≡◌, refl, sym, subst, Bool, true, false, Bool-cases, inl, inr, List, [], ◌∷◌, ◌++◌,
  map, Bytes, ltb, ◌==◌, length, take, drop, min, take-append-drop, length-take, arith,
  if◌then◌else◌,
}
use hybird_kv.Server.Exact.{HotKeyCounts}

-- `ExactHotKey`
pub record HotKey : Type 0 where
  pub key : Bytes
  pub total_accesses : ℕ
  pub read_accesses : ℕ
  pub write_accesses : ℕ

unfoldable pub hot_key : Bytes × HotKeyCounts → HotKey
hot_key (key, counts) = record {
  key = key;
  total_accesses = counts.total_accesses;
  read_accesses = counts.read_accesses;
  write_accesses = counts.write_accesses;
}

-- the order of texts, by their bytes
unfoldable pub key_le : Bytes → Bytes → Bool
key_le [] k = true
key_le (c ∷ cs) [] = false
key_le (c ∷ cs) (d ∷ ds) = let rest = key_le cs ds in if c == d then rest else ltb c d

-- The comparison of `top_keys` does not put the left entry after the right one.
unfoldable pub ranks_before : Bytes × HotKeyCounts → Bytes × HotKeyCounts → Bool
unfolding key_le
ranks_before (left_key, left) (right_key, right) =
    if right.total_accesses == left.total_accesses
    then (if right.read_accesses == left.read_accesses
        then (if right.write_accesses == left.write_accesses
            then key_le left_key right_key
            else ltb right.write_accesses left.write_accesses)
        else ltb right.read_accesses left.read_accesses)
    else ltb right.total_accesses left.total_accesses

unfoldable pub insert_ranked :
    Bytes × HotKeyCounts → List (Bytes × HotKeyCounts) → List (Bytes × HotKeyCounts)
unfolding ranks_before
insert_ranked entry [] = entry ∷ []
insert_ranked entry (other ∷ others) =
    let rest = insert_ranked entry others in
    if ranks_before entry other then entry ∷ other ∷ others else other ∷ rest

-- `sort_by`
unfoldable pub sort_ranked : List (Bytes × HotKeyCounts) → List (Bytes × HotKeyCounts)
unfolding insert_ranked
sort_ranked [] = []
sort_ranked (entry ∷ entries) = insert_ranked entry (sort_ranked entries)

unfoldable pub top_keys : List (Bytes × HotKeyCounts) → ℕ → List HotKey
unfolding sort_ranked hot_key
top_keys entries limit = take limit (map hot_key (sort_ranked entries))

-- No key has more accesses than that.
abbrev pub AtMost : ℕ → List HotKey → Type 0
AtMost n [] = Unit
AtMost n (h ∷ hs) = (h.total_accesses ≤ n) × AtMost n hs

abbrev pub Descending : List HotKey → Type 0
Descending [] = Unit
Descending (h ∷ hs) = AtMost h.total_accesses hs × Descending hs

-- Each of the first keys has as many accesses as each of the others, or more.
abbrev pub Dominates : List HotKey → List HotKey → Type 0
Dominates [] others = Unit
Dominates (h ∷ hs) others = AtMost h.total_accesses others × Dominates hs others

ranks_before_total :
    (x y : Bytes × HotKeyCounts)
    → ((ranks_before x y ≡ true) → y.1.total_accesses ≤ x.1.total_accesses)
      × ((ranks_before x y ≡ false) → x.1.total_accesses ≤ y.1.total_accesses)
unfolding ranks_before
ranks_before_total x y = (λ h. ground arith, λ h. ground arith)

AtMost-le : (n m : ℕ) (hs : List HotKey) → n ≤ m → AtMost n hs → AtMost m hs
AtMost-le n m [] e h = tt
AtMost-le n m (x ∷ hs) e h = (omega (arith, e, h.0), AtMost-le n m hs e h.1)

AtMost-append : (n : ℕ) (xs ys : List HotKey) → AtMost n (xs ++ ys) → AtMost n xs × AtMost n ys
AtMost-append n [] ys h = (tt, h)
AtMost-append n (x ∷ xs) ys h = let (a, b) = AtMost-append n xs ys h.1 in ((h.0, a), b)

Descending-append : (xs ys : List HotKey) → Descending (xs ++ ys) → Descending xs × Dominates xs ys
Descending-append [] ys h = (tt, tt)
Descending-append (x ∷ xs) ys h =
    let (a, b) = AtMost-append x.total_accesses xs ys h.0 in
    let (d, e) = Descending-append xs ys h.1 in ((a, d), (b, e))

insert_ranked-AtMost :
    (n : ℕ) (x : Bytes × HotKeyCounts) (ys : List (Bytes × HotKeyCounts))
    → x.1.total_accesses ≤ n
    → AtMost n (map hot_key ys)
    → AtMost n (map hot_key (insert_ranked x ys))
unfolding insert_ranked hot_key
insert_ranked-AtMost n x [] e h = (e, tt)
insert_ranked-AtMost n x (y ∷ ys) e h = elim (Bool-cases (ranks_before x y)) [
  | inl before ↦ rw before (e, h)
  | inr after ↦ rw after (h.0, insert_ranked-AtMost n x ys e h.1)
]

insert_ranked-Descending :
    (x : Bytes × HotKeyCounts) (ys : List (Bytes × HotKeyCounts))
    → Descending (map hot_key ys)
    → Descending (map hot_key (insert_ranked x ys))
unfolding insert_ranked hot_key
insert_ranked-Descending x [] h = (tt, tt)
insert_ranked-Descending x (y ∷ ys) h = elim (Bool-cases (ranks_before x y)) [
  | inl before ↦
      let e = (ranks_before_total x y).0 before in
      rw before ((e, AtMost-le y.1.total_accesses x.1.total_accesses (map hot_key ys) e h.0), h)
  | inr after ↦ rw after (
    insert_ranked-AtMost y.1.total_accesses x ys ((ranks_before_total x y).1 after) h.0,
    insert_ranked-Descending x ys h.1,
  )
]

sort_ranked-Descending :
    (entries : List (Bytes × HotKeyCounts)) → Descending (map hot_key (sort_ranked entries))
unfolding sort_ranked
sort_ranked-Descending [] = tt
sort_ranked-Descending (x ∷ entries) =
    insert_ranked-Descending x (sort_ranked entries) (sort_ranked-Descending entries)

insert_ranked-Perm :
    (x : Bytes × HotKeyCounts) (ys : List (Bytes × HotKeyCounts))
    → Perm (hot_key x ∷ map hot_key ys) (map hot_key (insert_ranked x ys))
unfolding insert_ranked
insert_ranked-Perm x [] = Perm.refl _
insert_ranked-Perm x (y ∷ ys) = elim (Bool-cases (ranks_before x y)) [
  | inl before ↦ rw before (Perm.refl _)
  | inr after ↦ rw after (
      Perm.trans (Perm.swap (hot_key y) (hot_key x) (map hot_key ys))
        (Perm.cons (hot_key y) (insert_ranked-Perm x ys)))
]

sort_ranked-Perm :
    (entries : List (Bytes × HotKeyCounts))
    → Perm (map hot_key entries) (map hot_key (sort_ranked entries))
unfolding sort_ranked
sort_ranked-Perm [] = Perm.refl _
sort_ranked-Perm (x ∷ entries) =
    Perm.trans (Perm.cons (hot_key x) (sort_ranked-Perm entries))
      (insert_ranked-Perm x (sort_ranked entries))

length-insert_ranked :
    (x : Bytes × HotKeyCounts) (ys : List (Bytes × HotKeyCounts))
    → length (map hot_key (insert_ranked x ys)) ≡ suc (length (map hot_key ys))
unfolding insert_ranked
length-insert_ranked x [] = refl
length-insert_ranked x (y ∷ ys) = elim (Bool-cases (ranks_before x y)) [
  | inl before ↦ rw before refl
  | inr after ↦ rw after (omega (arith, length-insert_ranked x ys))
]

length-sort_ranked :
    (entries : List (Bytes × HotKeyCounts))
    → length (map hot_key (sort_ranked entries)) ≡ length entries
unfolding sort_ranked
length-sort_ranked [] = refl
length-sort_ranked (x ∷ entries) =
    omega (arith, length-insert_ranked x (sort_ranked entries), length-sort_ranked entries)

-- The ranking is of the entries with the most accesses, and the others are left out.
pub record Hottest (entries : List (Bytes × HotKeyCounts)) (limit : ℕ) (ranking : List HotKey)
    : Type 0 where
  pub others : List HotKey
  pub all : Perm (map hot_key entries) (ranking ++ others)
  pub size : length ranking ≡ min limit (length entries)
  pub descending : Descending ranking
  pub dominates : Dominates ranking others

-- Of the entries of the map, in whatever order it gives them, `top_keys` ranks as many as the limit
-- allows, from the most accesses down: with those that it leaves out they are all the entries, each
-- once, and no key left out has more accesses than a ranked one.
pub top_keys-Hottest :
    (entries : List (Bytes × HotKeyCounts)) (limit : ℕ)
    → Hottest entries limit (top_keys entries limit)
unfolding top_keys
top_keys-Hottest entries limit =
    let sorted = map hot_key (sort_ranked entries) in
    let parts = take-append-drop limit sorted in
    let (d, e) =
      Descending-append (take limit sorted) (drop limit sorted)
        (subst Descending (sym parts) (sort_ranked-Descending entries)) in
    record {
      others = drop limit sorted;
      all = subst (Perm (map hot_key entries)) (sym parts) (sort_ranked-Perm entries);
      size = omega (arith, length-take limit sorted, length-sort_ranked entries);
      descending = d;
      dominates = e;
    }
