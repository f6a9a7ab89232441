-- ===== src/Engine/Memory/Contents.antt =====
-- How the items of a shard stand for the entries of a cache, and the invariant of a locked shard.
use hybird_kv.Prelude.{
  ℕ, ◌+◌, ◌%◌, ◌≡◌, refl, ap, some, List, [], ◌∷◌, ◌++◌, arith, length, Outcome, ret,
}
use hybird_kv.Engine.Word.{word}
use hybird_kv.Engine.HashMap.{HashMap}
use hybird_kv.Engine.Node.{ExpirationEntry}
use hybird_kv.Engine.Heap.{In, Ascending}
use hybird_kv.Engine.Shard.Links.{Payload, Items}
use hybird_kv.Engine.Shard.Wf.{IsWf}
use hybird_kv.Engine.Memory.{Locked}
use hybird_kv.Engine.Memory.Cache.{Entry}

abbrev pub All : (ℕ × Payload → Type 0) → Items → Type 0
All P [] = Unit
All P (x ∷ xs) = P x × All P xs

module _ (P : ℕ × Payload → Type 0) where
  pub All-split : (xs ys : Items) → All P (xs ++ ys) → All P xs × All P ys
  All-split [] ys h = (tt, h)
  All-split (x ∷ xs) ys h = let r = All-split xs ys h.1 in ((h.0, r.0), r.1)

  pub All-join : (xs ys : Items) → All P xs → All P ys → All P (xs ++ ys)
  All-join [] ys h k = k
  All-join (x ∷ xs) ys h k = (h.0, All-join xs ys h.1 k)

  -- Dropping, replacing and moving one item.
  pub All-drop :
      (xs : Items) (y : ℕ × Payload) (ys : Items) → All P (xs ++ y ∷ ys) → All P (xs ++ ys)
  All-drop xs y ys h = let r = All-split xs (y ∷ ys) h in All-join xs ys r.0 r.1.1

  pub All-item : (xs : Items) (y : ℕ × Payload) (ys : Items) → All P (xs ++ y ∷ ys) → P y
  All-item xs y ys h = (All-split xs (y ∷ ys) h).1.0

  pub All-snoc : (xs : Items) (y : ℕ × Payload) → All P xs → P y → All P (xs ++ y ∷ [])
  All-snoc xs y h k = All-join xs (y ∷ []) h (k, tt)

pub All-map :
    {P Q : ℕ × Payload → Type 0} (f : (x : ℕ × Payload) → P x → Q x) (xs : Items)
    → All P xs
    → All Q xs
All-map f [] h = tt
All-map f (x ∷ xs) h = (f x h.0, All-map f xs h.1)

abbrev pub entry_of : Payload → Entry
entry_of e = record { key = e.key; value = e.value; expires_at = e.expires_at }

abbrev pub view : Items → List Entry
view [] = []
view ((_, e) ∷ xs) = entry_of e ∷ view xs

abbrev pub total : Items → ℕ
total [] = 0
total ((_, e) ∷ xs) = e.size + total xs

pub total-append : (xs ys : Items) → total (xs ++ ys) ≡ total xs + total ys
total-append [] ys = omega arith
total-append (x ∷ xs) ys = omega (arith, total-append xs ys)

pub view-append : (xs ys : Items) → view (xs ++ ys) ≡ view xs ++ view ys
view-append [] ys = refl
view-append ((_, e) ∷ xs) ys = ap (◌∷◌ (entry_of e)) (view-append xs ys)

abbrev pub HasSize : ℕ × Payload → Type 0
HasSize it = it.1.size ≡ length it.1.key + length it.1.value

-- An item with a deadline has its entry in the heap.
abbrev pub Scheduled : List ExpirationEntry → ℕ × Payload → Type 0
Scheduled heap it =
    (d : ℕ)
    → it.1.expires_at ≡ some d
    → In (record { expires_at = d; idx = it.0; token = it.1.ttl_token }) heap

-- The shard under lock: the items are well linked, their sizes are those of their buffers, the
-- byte counter stands for them and for `other` bytes elsewhere, and the heap is in order and has
-- an entry for every deadline.
pub record IsConsistent {Map : Type 0} ⦃m : HashMap Map⦄ (l : Locked Map) (xs : Items) (other : ℕ)
    : Type 0 where
  pub wf : IsWf l.inner xs
  pub sized : All HasSize xs
  pub used : l.used_bytes ≡ (other + total xs) % word
  pub scheduled : All (Scheduled l.inner.ttl_heap) xs
  pub ascending : Ascending l.inner.ttl_heap

-- The step returns the second part of `p`, and leaves a consistent shard whose entries are the
-- first part.
pub record Yields {Map R : Type 0} ⦃m : HashMap Map⦄ (step : Outcome (Locked Map × R)) (other : ℕ)
    (p : List Entry × R) : Type 0 where
  pub state : Locked Map
  pub items : Items
  pub returns : step ≡ ret (state, p.1)
  pub consistent : IsConsistent state items other
  pub viewed : view items ≡ p.0
