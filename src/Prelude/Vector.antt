-- ===== src/Prelude/Vector.antt =====
-- Indexing of a vector of optional cells: `v[i]` panics past the end.
use Prim.Native.Nat.{ℕ, ◌<◌}
use mathlib.Core.Path.{◌≡◌}
use mathlib.Core.List.{List}
use mathlib.Core.Option.{Option, some}
use native.Mathlib.Omega.{arith}
use hybird_kv.Prelude.Tests.{ltb, lt→ltb, if◌then◌else◌}
use hybird_kv.Prelude.Lists.{length, set}
use hybird_kv.Prelude.Panic.{Outcome, ret, panic}
use hybird_kv.Prelude.Slots.{slot, modify, slot-lt}

module _ {ℓ} {A : Type ℓ} where
  -- `v[i]`
  unfoldable pub index : List (Option A) → ℕ → Outcome (Option A)
  index v i = if ltb i (length v) then ret (slot v i) else panic

  -- `v[i] = o`
  unfoldable pub assign : List (Option A) → ℕ → Option A → Outcome (List (Option A))
  assign v i o = if ltb i (length v) then ret (set v i o) else panic

  -- `if let Some(x) = v[i].as_mut() { *x = f(*x) }`
  unfoldable pub modify_at : List (Option A) → ℕ → (A → A) → Outcome (List (Option A))
  modify_at v i f = if ltb i (length v) then ret (modify v i f) else panic

  pub index-ret : (v : List (Option A)) (i : ℕ) → i < length v → index v i ≡ ret (slot v i)
  unfolding index
  index-ret v i h = ground (arith, lt→ltb i (length v))

  pub index-some :
      (v : List (Option A)) (i : ℕ) (x : A) → slot v i ≡ some x → index v i ≡ ret (some x)
  unfolding index
  index-some v i x h = ground (arith, slot-lt v i {v = x} h)

  pub assign-ret :
      (v : List (Option A)) (i : ℕ) (o : Option A) → i < length v → assign v i o ≡ ret (set v i o)
  unfolding assign
  assign-ret v i o h = ground (arith, lt→ltb i (length v))

  pub modify_at-ret :
      (v : List (Option A)) (i : ℕ) (f : A → A)
      → i < length v
      → modify_at v i f ≡ ret (modify v i f)
  unfolding modify_at
  modify_at-ret v i f h = ground (arith, lt→ltb i (length v))
