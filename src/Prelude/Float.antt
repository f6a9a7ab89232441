-- ===== src/Prelude/Float.antt =====
-- What is relied on of `f64`: its operations, and that the text of a number with three decimals is
-- made of visible ASCII characters and is read back as the number rounded to three decimals.
use Prim.Native.Nat.{ℕ, ◌≤◌}
use mathlib.Core.Path.{◌≡◌}
use mathlib.Core.Bool.{Bool}
use mathlib.Core.Option.{Option, some}
use mathlib.Core.List.{[], ◌∷◌}
use hybird_kv.Prelude.ByteString.{Bytes}

abbrev pub Visible : Bytes → Type 0
Visible [] = Unit
Visible (c ∷ cs) = (33 ≤ c) × (c ≤ 126) × Visible cs

pub record Float (F : Type 0) : Type 0 where
  -- the literal of so many tenths
  pub tenths : ℕ → F
  pub from_u64 : ℕ → F
  -- `Duration::as_secs_f64`, of nanoseconds
  pub as_secs : ℕ → F
  pub mul : F → F → F
  pub div : F → F → F
  -- `<=` and `==`
  pub le : F → F → Bool
  pub eq : F → F → Bool
  pub epsilon : F
  -- `ceil`, `floor` and `round`, cast to `u64`
  pub ceil_u64 : F → ℕ
  pub floor_u64 : F → ℕ
  pub round_u64 : F → ℕ
  -- `{:.3}`, and `str::parse`
  pub show3 : F → Bytes
  pub parse : Bytes → Option F
  pub round3 : F → F
  pub show3-Visible : (x : F) → Visible (show3 x)
  pub parse-show3 : (x : F) → parse (show3 x) ≡ some (round3 x)
