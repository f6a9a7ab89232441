-- ===== src/Prelude/Panic.antt =====
-- A computation that may panic: `ret a` is a normal return.
use mathlib.Core.Path.{◌≡◌, refl}

pub data Outcome {ℓ} (A : Type ℓ) : Type ℓ where
  ret : A → Outcome A
  panic : Outcome A

infixl 5 ◌>>=◌
abbrev pub ◌>>=◌ {ℓ κ} : {A : Type ℓ} {B : Type κ} → Outcome A → (A → Outcome B) → Outcome B
ret a >>= f = f a
panic >>= f = panic

-- A chain that returns has a first step that returns.
pub >>=-eq-ret {ℓ κ} :
    {A : Type ℓ} {B : Type κ} (m : Outcome A) (f : A → Outcome B) {b : B}
    → (m >>= f) ≡ ret b
    → (a : A) × (m ≡ ret a) × (f a ≡ ret b)
>>=-eq-ret (ret a) f h = (a, refl, h)
>>=-eq-ret panic f h = cc
