-- ===== src/Common/Buffers.antt =====
-- Keys and values hold the bytes that they are made of, and they are equal if those are.
use hybird_kv.Prelude.{
  ℕ, ◌%◌, ◌^◌, ◌<◌, ◌≤◌, ◌≡◌, refl, ◌∙◌, ap, arith, [], ◌∷◌, ◌++◌, Bytes, ret, length,
  length-append, take, drop, replicate, leb, ltb, ltb→lt, true, false, Bool-cases, inl, inr, ◌⊎◌,
}
use hybird_kv.Common.Error.{key_too_long, value_too_long}
use hybird_kv.Common.Types.{
  ok, err, Key, Value, max_key_size, max_value_size, copied, front, new_key, key_bytes, new_value,
  value_bytes,
}

take_all : (xs ys : Bytes) → take (length xs) (xs ++ ys) ≡ xs
take_all [] ys = refl
take_all (x ∷ xs) ys = ap (◌∷◌ x) (take_all xs ys)

front-copied : (xs buf : Bytes) → front (length xs) (copied xs buf) ≡ ret xs
unfolding front copied
front-copied xs buf =
    let n = length-append xs (drop (length xs) buf) in
    let fits : leb (length xs) (length (xs ++ drop (length xs) buf)) ≡ true =
      at_most _ _ (omega (arith, n)) in
    rw fits (ap ret (take_all xs (drop (length xs) buf)))
  where
    at_most : (a b : ℕ) → a ≤ b → leb a b ≡ true
    at_most a b h = ground arith

-- Either the bytes are at most 256, and the key made of them has their length and gives them back
-- without a panic, or they are more, and the error is that the key is too long.
pub new_key-key_bytes :
    (input : Bytes)
    → ((length input ≤ 256)
        × (k : Key) × (new_key input ≡ ok k)
        × (k.len ≡ length input)
        × (key_bytes k ≡ ret input))
      ⊎ ((256 < length input) × (new_key input ≡ err key_too_long))
unfolding new_key key_bytes
new_key-key_bytes input = elim (Bool-cases (ltb max_key_size (length input))) [
  | inl more ↦ inr (ltb→lt _ _ more, rw more)
  | inr less ↦
      let small : length input ≤ 256 = not_more _ _ less in
      let cut : length input % 2 ^ 16 ≡ length input = omega arith in
      inl (
        small,
        record { len = length input % 2 ^ 16; bytes_buf = copied input (replicate max_key_size 0) },
        rw less,
        cut,
        ap (λ n. front n (copied input (replicate max_key_size 0))) cut ∙ front-copied input _,
      )
]
  where
    not_more : (a b : ℕ) → ltb a b ≡ false → b ≤ a
    not_more a b h = ground arith

-- The same of values, whose limit is 1024 bytes.
pub new_value-value_bytes :
    (input : Bytes)
    → ((length input ≤ 1024)
        × (v : Value) × (new_value input ≡ ok v)
        × (v.len ≡ length input)
        × (value_bytes v ≡ ret input))
      ⊎ ((1024 < length input) × (new_value input ≡ err value_too_long))
unfolding new_value value_bytes
new_value-value_bytes input = elim (Bool-cases (ltb max_value_size (length input))) [
  | inl more ↦ inr (ltb→lt _ _ more, rw more)
  | inr less ↦
      let small : length input ≤ 1024 = not_more _ _ less in
      let cut : length input % 2 ^ 16 ≡ length input = omega arith in
      inl (
        small,
        record {
          len = length input % 2 ^ 16;
          bytes_buf = copied input (replicate max_value_size 0);
        },
        rw less,
        cut,
        ap (λ n. front n (copied input (replicate max_value_size 0))) cut ∙ front-copied input _,
      )
]
  where
    not_more : (a b : ℕ) → ltb a b ≡ false → b ≤ a
    not_more a b h = ground arith
