-- ===== src/Engine/Shard/Keys.antt =====
-- The keys of a list of items: which slot a key has, and what a change of the list does to it.
use hybird_kv.Prelude.{
  ℕ, ◌≡◌, refl, sym, ◌∙◌, append-nil, ap, subst, Option, none, some, [], ◌∷◌, ◌++◌, true, false,
  arith, Bytes, bytes_eq, bytes_eq_iff, if◌then◌else◌, Bool-cases, inl, inr,
}
use hybird_kv.Engine.Shard.Links.{Payload, Items}

abbrev pub index_of : Bytes → Items → Option ℕ
index_of k [] = none
index_of k ((i, e) ∷ xs) = if bytes_eq e.key k then some i else index_of k xs

abbrev pub NoKey : Bytes → Items → Type 0
NoKey k [] = Unit
NoKey k ((_, e) ∷ xs) = (bytes_eq e.key k ≡ false) × NoKey k xs

abbrev pub UniqueKeys : Items → Type 0
UniqueKeys [] = Unit
UniqueKeys ((_, e) ∷ xs) = NoKey e.key xs × UniqueKeys xs

pub bytes_eq_sym : (a b : Bytes) → bytes_eq a b ≡ false → bytes_eq b a ≡ false
bytes_eq_sym a b h = ground (arith, bytes_eq_iff a b, bytes_eq_iff b a)

pub bytes_eq_refl : (a : Bytes) → bytes_eq a a ≡ true
bytes_eq_refl a = (bytes_eq_iff a a).1 refl

-- A key with a slot is the key of one item, at a place in the list.
pub index_of-split :
    (k : Bytes) (xs : Items) (i : ℕ)
    → index_of k xs ≡ some i
    → (before : Items) × (e : Payload) × (after : Items) × (xs ≡ before ++ (i, e) ∷ after)
      × (e.key ≡ k)
index_of-split k [] i h = cc
index_of-split k ((j, f) ∷ xs) i h = elim (Bool-cases (bytes_eq f.key k)) [
  | inl same ↦ ([], f, xs, ground arith, (bytes_eq_iff f.key k).0 same)
  | inr other ↦
      let (before, e, after, split, key) = index_of-split k xs i (ground arith) in
      ((j, f) ∷ before, e, after, ap (◌∷◌ (j, f)) split, key)
]

pub index_of-NoKey : (k : Bytes) (xs : Items) → NoKey k xs → index_of k xs ≡ none
index_of-NoKey k [] h = refl
index_of-NoKey k ((j, f) ∷ xs) h = ground (arith, index_of-NoKey k xs h.1)

pub NoKey-index_of : (k : Bytes) (xs : Items) → index_of k xs ≡ none → NoKey k xs
NoKey-index_of k [] h = tt
NoKey-index_of k ((j, f) ∷ xs) h = elim (Bool-cases (bytes_eq f.key k)) [
  | inl same ↦ absurd (ground arith)
  | inr other ↦ (other, NoKey-index_of k xs (ground arith))
]

pub NoKey-split : (k : Bytes) (xs ys : Items) → NoKey k (xs ++ ys) → NoKey k xs × NoKey k ys
NoKey-split k [] ys h = (tt, h)
NoKey-split k (x ∷ xs) ys h = let r = NoKey-split k xs ys h.1 in ((h.0, r.0), r.1)

pub NoKey-join : (k : Bytes) (xs ys : Items) → NoKey k xs → NoKey k ys → NoKey k (xs ++ ys)
NoKey-join k [] ys h r = r
NoKey-join k (x ∷ xs) ys h r = (h.0, NoKey-join k xs ys h.1 r)

pub UniqueKeys-drop :
    (xs : Items) (i : ℕ) (e : Payload) (ys : Items)
    → UniqueKeys (xs ++ (i, e) ∷ ys)
    → UniqueKeys (xs ++ ys)
UniqueKeys-drop [] i e ys u = u.1
UniqueKeys-drop ((j, f) ∷ xs) i e ys u =
    let n = NoKey-split f.key xs ((i, e) ∷ ys) u.0 in
    (NoKey-join f.key xs ys n.0 n.1.1, UniqueKeys-drop xs i e ys u.1)

-- Nobody else has the key of an item.
pub NoKey-others :
    (xs : Items) (i : ℕ) (e : Payload) (ys : Items)
    → UniqueKeys (xs ++ (i, e) ∷ ys)
    → NoKey e.key (xs ++ ys)
NoKey-others [] i e ys u = u.0
NoKey-others ((j, f) ∷ xs) i e ys u =
    let n = NoKey-split f.key xs ((i, e) ∷ ys) u.0 in
    (bytes_eq_sym e.key f.key n.1.0, NoKey-others xs i e ys u.1)

pub UniqueKeys-snoc :
    (xs : Items) (i : ℕ) (e : Payload)
    → UniqueKeys xs
    → NoKey e.key xs
    → UniqueKeys (xs ++ (i, e) ∷ [])
UniqueKeys-snoc [] i e u n = (tt, tt)
UniqueKeys-snoc ((j, f) ∷ xs) i e u n = (
  NoKey-join f.key xs ((i, e) ∷ []) u.0 (bytes_eq_sym f.key e.key n.0, tt),
  UniqueKeys-snoc xs i e u.1 n.1,
)

index_of-skip :
    (k : Bytes) (xs : Items) (i : ℕ) (e : Payload) (ys : Items)
    → bytes_eq e.key k ≡ false
    → index_of k (xs ++ (i, e) ∷ ys) ≡ index_of k (xs ++ ys)
index_of-skip k [] i e ys h = rw h
index_of-skip k ((j, f) ∷ xs) i e ys h = rw (index_of-skip k xs i e ys h)

-- After the item is dropped its key has no slot, and the others keep theirs.
pub index_of-drop :
    (k : Bytes) (xs : Items) (i : ℕ) (e : Payload) (ys : Items)
    → UniqueKeys (xs ++ (i, e) ∷ ys)
    → (if bytes_eq e.key k then none else index_of k (xs ++ (i, e) ∷ ys)) ≡ index_of k (xs ++ ys)
index_of-drop k xs i e ys u = elim (Bool-cases (bytes_eq e.key k)) [
  | inl same ↦
      let eq = (bytes_eq_iff e.key k).0 same in
      rw same (
        sym (
          index_of-NoKey k (xs ++ ys)
            (subst (λ j. NoKey j (xs ++ ys)) eq (NoKey-others xs i e ys u))))
  | inr other ↦ rw other (index_of-skip k xs i e ys other)
]

-- An item with a new key at the end has its slot, and the others keep theirs.
pub index_of-snoc :
    (k : Bytes) (xs : Items) (i : ℕ) (e : Payload)
    → NoKey e.key xs
    → (if bytes_eq e.key k then some i else index_of k xs) ≡ index_of k (xs ++ (i, e) ∷ [])
index_of-snoc k [] i e n = refl
index_of-snoc k ((j, f) ∷ xs) i e n = ground (
  arith,
  index_of-snoc k xs i e n.1,
  bytes_eq_iff e.key k,
  bytes_eq_iff f.key k,
  bytes_eq_iff f.key e.key,
)

index_of_here :
    (k : Bytes) (xs : Items) (i : ℕ) (e : Payload) (ys : Items)
    → NoKey k xs
    → bytes_eq e.key k ≡ true
    → index_of k (xs ++ (i, e) ∷ ys) ≡ some i
index_of_here k [] i e ys n h = rw h
index_of_here k ((j, f) ∷ xs) i e ys n h = rw n.0 (index_of_here k xs i e ys n.1 h)

-- The slot of a key does not depend on the place of its item.
pub index_of-move :
    (k : Bytes) (xs : Items) (i : ℕ) (e : Payload) (ys : Items)
    → UniqueKeys (xs ++ (i, e) ∷ ys)
    → index_of k (xs ++ (i, e) ∷ ys) ≡ index_of k ((xs ++ ys) ++ (i, e) ∷ [])
index_of-move k xs i e ys u = elim (Bool-cases (bytes_eq e.key k)) [
  | inl same ↦
      let eq = (bytes_eq_iff e.key k).0 same in
      let n = subst (λ j. NoKey j (xs ++ ys)) eq (NoKey-others xs i e ys u) in
      index_of_here k xs i e ys (NoKey-split k xs ys n).0 same
      ∙ sym (index_of_here k (xs ++ ys) i e [] n same)
  | inr other ↦
      index_of-skip k xs i e ys other
      ∙ sym (index_of-skip k (xs ++ ys) i e [] other ∙ ap (index_of k) (append-nil (xs ++ ys)))
]
