-- ===== src/Common/Numbers.antt =====
-- Decimal numbers: `to_string` and `parse` of the unsigned types, which share one definition over
-- the largest number of the type.
use native.Mathlib.Nat.{pow-suc}
use hybird_kv.Prelude.{
  ℕ, zero, suc, ◌+◌, ◌-◌, ◌*◌, ◌/◌, ◌%◌, ◌^◌, ◌<◌, ◌≤◌, ◌≡◌, ◌≢◌, refl, ◌∙◌, ◌&&◌, Bool-cases, inl,
  inr, Option, none, some, [], ◌∷◌, ◌++◌, Bytes, arith, leb, ltb, ◌==◌, if◌then◌else◌,
}
use hybird_kv.Prelude.Int.{ℤ, pos, negsuc}

-- the digits of a number, with at most `more` of them before the last one
unfoldable pub digits_of : ℕ → ℕ → Bytes
digits_of zero v = (48 + v % 10) ∷ []
digits_of (suc more) v =
    let before = digits_of more (v / 10) in
    if ltb v 10 then (48 + v) ∷ [] else before ++ (48 + v % 10) ∷ []

-- `to_string` of a number below 10^20
unfoldable pub show : ℕ → Bytes
unfolding digits_of
show v = digits_of 19 v

unfoldable pub show_signed : ℤ → Bytes
unfolding show
show_signed (pos n) = show n
show_signed (negsuc n) = b'-' ∷ show (n + 1)

unfoldable pub parse_checked : ℕ → ℕ → Bytes → Option ℕ
parse_checked top value [] = some value
parse_checked top value (c ∷ cs) =
    if leb 48 c && leb c 57 && leb (value * 10 + (c - 48)) top
    then parse_checked top (value * 10 + (c - 48)) cs
    else none

-- `str::parse`, with an optional sign `+`
unfoldable pub parse_uint : ℕ → Bytes → Option ℕ
unfolding parse_checked
parse_uint top [] = none
parse_uint top (c ∷ []) = parse_checked top 0 (c ∷ [])
parse_uint top (c ∷ d ∷ cs) =
    if c == b'+' then parse_checked top 0 (d ∷ cs) else parse_checked top 0 (c ∷ d ∷ cs)

-- Digits, at least one.
abbrev pub Digits : Bytes → Type 0
Digits [] = Unit
Digits (c ∷ cs) = (48 ≤ c) × (c ≤ 57) × Digits cs

Digits-append : (xs ys : Bytes) → Digits xs → Digits ys → Digits (xs ++ ys)
Digits-append [] ys h k = k
Digits-append (x ∷ xs) ys h k = (h.0, h.1, Digits-append xs ys h.2 k)

pub digits_of-Digits : (more v : ℕ) → Digits (digits_of more v)
unfolding digits_of
digits_of-Digits zero v = (omega arith, omega arith, tt)
digits_of-Digits (suc more) v = elim (Bool-cases (ltb v 10)) [
  | inl small ↦ rw small (omega arith, ground (arith, small), tt)
  | inr big ↦ rw big (
      Digits-append (digits_of more (v / 10)) _ (digits_of-Digits more (v / 10))
        (omega arith, omega arith, tt))
]

module _ (top : ℕ) where
  parse_checked-append :
      (value n : ℕ) (xs ys : Bytes)
      → parse_checked top value xs ≡ some n
      → parse_checked top value (xs ++ ys) ≡ parse_checked top n ys
  unfolding parse_checked
  parse_checked-append value n [] ys h = ground arith
  parse_checked-append value n (x ∷ xs) ys h =
      ground (arith, parse_checked-append (value * 10 + (x - 48)) n xs ys)

  last_digit : (v : ℕ) → v ≤ top → parse_checked top (v / 10) ((48 + v % 10) ∷ []) ≡ some v
  unfolding parse_checked
  last_digit v h = ground arith

  single : (v d : ℕ) → d ≡ v → v < 10 → v ≤ top → parse_checked top 0 ((48 + d) ∷ []) ≡ some v
  unfolding parse_checked
  single v d e h w = ground (arith, e)

  digits_of-parse :
      (more v : ℕ) → v < 10 ^ suc more → v ≤ top → parse_checked top 0 (digits_of more v) ≡ some v
  unfolding digits_of
  digits_of-parse zero v h w =
      single v _ (omega (arith, pow-suc 10 0)) (omega (arith, pow-suc 10 0)) w
  digits_of-parse (suc more) v h w = elim (Bool-cases (ltb v 10)) [
    | inl small ↦ rw small (single v v refl (ground (arith, small)) w)
    | inr big ↦ rw big (
        parse_checked-append 0 (v / 10) (digits_of more (v / 10)) _
          (digits_of-parse more (v / 10) (omega (arith, pow-suc 10 (suc more))) (omega arith))
        ∙ last_digit v w)
  ]

not_empty : (more v : ℕ) → digits_of more v ≢ []
unfolding digits_of
not_empty zero v e = cc
not_empty (suc more) v e = elim (Bool-cases (ltb v 10)) [
  | inl small ↦ cc (rw small at e)
  | inr big ↦ append-ne (digits_of more (v / 10)) _ (rw big at e)
]
  where
    append-ne : (xs : Bytes) (c : ℕ) → xs ++ c ∷ [] ≢ []
    append-ne [] c e = cc
    append-ne (x ∷ xs) c e = cc

parse_uint-unsigned :
    (top : ℕ) (ds : Bytes) → Digits ds → ds ≢ [] → parse_uint top ds ≡ parse_checked top 0 ds
unfolding parse_uint
parse_uint-unsigned top [] d n = absurd (n refl)
parse_uint-unsigned top (c ∷ []) d n = refl
parse_uint-unsigned top (c ∷ e ∷ cs) d n = ground (arith, d.0)

pub show-Digits : (v : ℕ) → Digits (show v)
unfolding show
show-Digits v = digits_of-Digits 19 v

-- The decimal text of a number of a type of at most 64 bits is read back as that number.
pub parse_uint-show : (top v : ℕ) → v ≤ top → v < 2 ^ 64 → parse_uint top (show v) ≡ some v
unfolding show
parse_uint-show top v h w =
    parse_uint-unsigned top (digits_of 19 v) (digits_of-Digits 19 v) (not_empty 19 v)
    ∙ digits_of-parse top 19 v (omega arith) h
