-- ===== src/Engine/Heap.antt =====
-- The expiration heap as a list in ascending order of deadlines: what a push keeps.
use hybird_kv.Prelude.{
  ℕ, ◌≤◌, ◌≡◌, refl, true, false, List, [], ◌∷◌, arith, ◌⊎◌, inl, inr, Bool-cases,
}
use hybird_kv.Engine.Node.{ExpirationEntry, entry_le, heap_push}

abbrev pub In : ExpirationEntry → List ExpirationEntry → Type 0
In x [] = ⊥
In x (y ∷ ys) = (x ≡ y) ⊎ In x ys

abbrev pub NoEarlier : ℕ → List ExpirationEntry → Type 0
NoEarlier d [] = Unit
NoEarlier d (e ∷ heap) = (d ≤ e.expires_at) × NoEarlier d heap

abbrev pub Ascending : List ExpirationEntry → Type 0
Ascending [] = Unit
Ascending (e ∷ heap) = NoEarlier e.expires_at heap × Ascending heap

pub NoEarlier-le :
    (c d : ℕ) (heap : List ExpirationEntry) → c ≤ d → NoEarlier d heap → NoEarlier c heap
NoEarlier-le c d [] h n = tt
NoEarlier-le c d (e ∷ heap) h n = (omega arith, NoEarlier-le c d heap h n.1)

NoEarlier-push :
    (d : ℕ) (e : ExpirationEntry) (heap : List ExpirationEntry)
    → d ≤ e.expires_at
    → NoEarlier d heap
    → NoEarlier d (heap_push e heap)
unfolding heap_push
NoEarlier-push d e [] h n = (h, tt)
NoEarlier-push d e (f ∷ heap) h n = elim (Bool-cases (entry_le e f)) [
  | inl le ↦ rw le (h, n)
  | inr gt ↦ rw gt (n.0, NoEarlier-push d e heap h n.1)
]

entry_le-true : (a b : ExpirationEntry) → entry_le a b ≡ true → a.expires_at ≤ b.expires_at
unfolding entry_le
entry_le-true a b h = ground arith

entry_le-false : (a b : ExpirationEntry) → entry_le a b ≡ false → b.expires_at ≤ a.expires_at
unfolding entry_le
entry_le-false a b h = ground arith

pub Ascending-push :
    (e : ExpirationEntry) (heap : List ExpirationEntry)
    → Ascending heap
    → Ascending (heap_push e heap)
unfolding heap_push
Ascending-push e [] a = (tt, tt)
Ascending-push e (f ∷ heap) a = elim (Bool-cases (entry_le e f)) [
  | inl le ↦ rw le (
      (
        (
          entry_le-true e f le,
          NoEarlier-le e.expires_at f.expires_at heap (entry_le-true e f le) a.0,
        ),
        a,
      ))
  | inr gt ↦
      rw gt (
        (NoEarlier-push f.expires_at e heap (entry_le-false e f gt) a.0, Ascending-push e heap a.1))
]

pub In-push_self : (e : ExpirationEntry) (heap : List ExpirationEntry) → In e (heap_push e heap)
unfolding heap_push
In-push_self e [] = inl refl
In-push_self e (f ∷ heap) = elim (Bool-cases (entry_le e f)) [
  | inl le ↦ rw le (inl refl)
  | inr gt ↦ rw gt (inr (In-push_self e heap))
]

pub In-push :
    (x e : ExpirationEntry) (heap : List ExpirationEntry) → In x heap → In x (heap_push e heap)
unfolding heap_push
In-push x e [] h = absurd h
In-push x e (f ∷ heap) h = elim (Bool-cases (entry_le e f)) [
  | inl le ↦ rw le (inr h)
  | inr gt ↦ rw gt (elim h [ inl eq ↦ inl eq | inr r ↦ inr (In-push x e heap r) ])
]
