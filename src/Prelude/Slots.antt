-- ===== src/Prelude/Slots.antt =====
-- A vector of optional cells, and updates of one cell with laws in `if` form.
use Prim.Native.Nat.{ℕ, zero, suc, ◌<◌}
use mathlib.Core.Path.{◌≡◌, refl}
use mathlib.Core.List.{List, [], ◌∷◌, ◌++◌}
use mathlib.Core.Option
use mathlib.Core.Option.{Option, none, some}
use native.Mathlib.Omega.{arith}
use hybird_kv.Prelude.Tests.{◌==◌, if◌then◌else◌}
use hybird_kv.Prelude.Lists.{length, set}

module _ {ℓ} {A : Type ℓ} where
  -- The content of cell `i`; an index past the end reads as an empty cell.
  unfoldable pub slot : List (Option A) → ℕ → Option A
  slot [] i = none
  slot (x ∷ xs) zero = x
  slot (x ∷ xs) (suc i) = slot xs i

  unfoldable pub modify : List (Option A) → ℕ → (A → A) → List (Option A)
  modify [] i f = []
  modify (x ∷ xs) zero f = Option.map f x ∷ xs
  modify (x ∷ xs) (suc i) f = x ∷ modify xs i f

  pub slot-modify :
      (xs : List (Option A)) (i : ℕ) (f : A → A) (j : ℕ)
      → slot (modify xs i f) j ≡ (if i == j then Option.map f (slot xs j) else slot xs j)
  unfolding slot modify
  slot-modify [] i f j = ground arith
  slot-modify (x ∷ xs) zero f zero = refl
  slot-modify (x ∷ xs) zero f (suc j) = ground arith
  slot-modify (x ∷ xs) (suc i) f zero = ground arith
  slot-modify (x ∷ xs) (suc i) f (suc j) = ground (arith, slot-modify xs i f j)

  pub length-modify :
      (xs : List (Option A)) (i : ℕ) (f : A → A) → length (modify xs i f) ≡ length xs
  unfolding modify
  length-modify [] i f = refl
  length-modify (x ∷ xs) zero f = refl
  length-modify (x ∷ xs) (suc i) f = omega (arith, length-modify xs i f)

  pub slot-lt : (xs : List (Option A)) (i : ℕ) {v : A} → slot xs i ≡ some v → i < length xs
  unfolding slot
  slot-lt [] i h = cc
  slot-lt (x ∷ xs) zero h = omega arith
  slot-lt (x ∷ xs) (suc i) h = omega (arith, slot-lt xs i h)

  pub slot-set :
      (xs : List (Option A)) (i : ℕ) (o : Option A) (j : ℕ)
      → i < length xs
      → slot (set xs i o) j ≡ (if i == j then o else slot xs j)
  unfolding slot
  slot-set [] i o j h = elim h [ ]
  slot-set (x ∷ xs) zero o zero h = refl
  slot-set (x ∷ xs) zero o (suc j) h = ground arith
  slot-set (x ∷ xs) (suc i) o zero h = ground arith
  slot-set (x ∷ xs) (suc i) o (suc j) h = ground (arith, slot-set xs i o j)

  pub slot-push : (xs : List (Option A)) (j : ℕ) → slot (xs ++ none ∷ []) j ≡ slot xs j
  unfolding slot
  slot-push [] zero = refl
  slot-push [] (suc j) = refl
  slot-push (x ∷ xs) zero = refl
  slot-push (x ∷ xs) (suc j) = slot-push xs j
