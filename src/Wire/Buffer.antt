-- ===== src/Wire/Buffer.antt =====
-- What the parser relies on of the byte buffer type that it takes from a library: the slice that a
-- buffer stands for, and the documented effect of `split_to`, `advance` and `get_u8` on it.
use hybird_kv.Prelude.{ℕ, ◌≤◌, ◌≡◌, ◌∷◌, Bytes, Outcome, ret, length, take, drop}

pub record BytesMut (Buf : Type 0) : Type 0 where
  pub contents : Buf → Bytes
  pub split_to : ℕ → Buf → Outcome (Buf × Buf)
  pub advance : ℕ → Buf → Outcome Buf
  pub get_u8 : Buf → Outcome (Buf × ℕ)
  -- `split_to(at)` gives the first `at` bytes, and leaves the others.
  pub split_to-ret :
      (n : ℕ) (b : Buf)
      → n ≤ length (contents b)
      → (front rest : Buf) × (split_to n b ≡ ret (front, rest))
        × (contents front ≡ take n (contents b))
        × (contents rest ≡ drop n (contents b))
  pub advance-ret :
      (n : ℕ) (b : Buf)
      → n ≤ length (contents b)
      → (rest : Buf) × (advance n b ≡ ret rest) × (contents rest ≡ drop n (contents b))
  pub get_u8-ret :
      (b : Buf) (x : ℕ) (xs : Bytes)
      → contents b ≡ x ∷ xs
      → (rest : Buf) × (get_u8 b ≡ ret (rest, x)) × (contents rest ≡ xs)
