-- ===== src/Engine/Shard/Distinct.antt =====
-- Lists of items with distinct slot indices: what splitting them gives.
use hybird_kv.Prelude.{ℕ, sym, [], ◌∷◌, ◌++◌}
use hybird_kv.Engine.Shard.Links.{
  Payload, Items, last_idx, Absent, Distinct, Absent-split, Absent-join,
}

pub Distinct-left : (xs ys : Items) → Distinct (xs ++ ys) → Distinct xs
Distinct-left [] ys d = tt
Distinct-left ((i, e) ∷ xs) ys d = ((Absent-split i xs ys d.0).0, Distinct-left xs ys d.1)

pub Distinct-right : (xs ys : Items) → Distinct (xs ++ ys) → Distinct ys
Distinct-right [] ys d = d
Distinct-right (x ∷ xs) ys d = Distinct-right xs ys d.1

-- The item in the middle is not among those before it.
pub Absent-before :
    (xs : Items) (i : ℕ) (e : Payload) (ys : Items) → Distinct (xs ++ (i, e) ∷ ys) → Absent i xs
Absent-before [] i e ys d = tt
Absent-before ((j, f) ∷ xs) i e ys d =
    (λ eq. (Absent-split j xs ((i, e) ∷ ys) d.0).1.0 (sym eq), Absent-before xs i e ys d.1)

pub Absent-behind :
    (xs : Items) (i : ℕ) (e : Payload) (ys : Items) → Distinct (xs ++ (i, e) ∷ ys) → Absent i ys
Absent-behind xs i e ys d = (Distinct-right xs ((i, e) ∷ ys) d).0

-- The last item of the first part is not in the second.
pub Absent-last :
    (i : ℕ) (e : Payload) (xs ys : Items) → Distinct ((i, e) ∷ xs ++ ys) → Absent (last_idx i xs) ys
Absent-last i e [] ys d = d.0
Absent-last i e ((j, f) ∷ xs) ys d = Absent-last j f xs ys d.1

pub Distinct-drop :
    (xs : Items) (i : ℕ) (e : Payload) (ys : Items)
    → Distinct (xs ++ (i, e) ∷ ys)
    → Distinct (xs ++ ys)
Distinct-drop [] i e ys d = d.1
Distinct-drop ((j, f) ∷ xs) i e ys d =
    let a = Absent-split j xs ((i, e) ∷ ys) d.0 in
    (Absent-join j xs ys a.0 a.1.1, Distinct-drop xs i e ys d.1)

pub Distinct-snoc :
    (xs : Items) (i : ℕ) (e : Payload) → Distinct xs → Absent i xs → Distinct (xs ++ (i, e) ∷ [])
Distinct-snoc [] i e d a = (tt, tt)
Distinct-snoc ((j, f) ∷ xs) i e d a =
    (Absent-join j xs ((i, e) ∷ []) d.0 (λ eq. a.0 (sym eq), tt), Distinct-snoc xs i e d.1 a.1)
