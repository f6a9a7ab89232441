-- ===== src/Wire/Decimal.antt =====
-- Decimal numbers: `push_usize` of hkv-client/src/resp.rs, and `parse_usize` of
-- hkv-server/src/protocol.rs.
use native.Mathlib.Nat.{pow-suc}
use mathlib.Core.List.{reverse-cons}
use hybird_kv.Prelude.{
  ℕ, zero, suc, ◌+◌, ◌-◌, ◌*◌, ◌/◌, ◌%◌, ◌^◌, ◌<◌, ◌≤◌, ◌≢◌, ◌≡◌, refl, sym, ◌∙◌, ap, subst, min,
  Bool, true, ◌&&◌, [], ◌∷◌, ◌++◌, reverse, arith, Bytes, Outcome, ret, panic, ◌>>=◌, leb, ◌==◌,
  if◌then◌else◌, Bool-cases, inl, inr, ==_iff,
}
use hybird_kv.Engine.Word.{word}

-- `Result<A, RespError>`, whose only error is `RespError::Protocol`
pub data Parsed (A : Type 0) : Type 0 where
  ok : A → Parsed A
  protocol : Parsed A

-- the `while value > 0` loop of `push_usize`, which writes to a buffer with `room` cells left:
-- the digits from the lowest, or the panic of a write past the buffer
unfoldable pub digits_from : ℕ → ℕ → Outcome Bytes
digits_from zero value = if value == 0 then ret [] else panic
digits_from (suc room) value =
    let rest = digits_from room (value / 10) in
    if value == 0 then ret [] else (do ds ← rest; ret ((48 + value % 10) ∷ ds))

unfoldable pub push_usize : Bytes → ℕ → Outcome Bytes
push_usize out value =
    if value == 0
    then ret (out ++ 48 ∷ [])
    else (do ds ← digits_from 20 value; ret (out ++ reverse ds))

unfoldable pub is_ascii_digit : ℕ → Bool
is_ascii_digit b = leb 48 b && leb b 57

-- `value.saturating_mul(10).saturating_add(b - b'0')`, in a type whose largest number is `top`
unfoldable pub push_digit : ℕ → ℕ → ℕ → ℕ
push_digit top value b = min (min (value * 10) top + (b - 48)) top

-- the loop over the digits, which the parsers of `usize`, `u64` and `i64` share
unfoldable pub parse_digits : ℕ → ℕ → Bytes → Parsed ℕ
parse_digits top value [] = ok value
parse_digits top value (b ∷ bs) =
    if is_ascii_digit b then parse_digits top (push_digit top value b) bs else protocol

unfoldable pub parse_usize : Bytes → Parsed ℕ
parse_usize [] = protocol
parse_usize (b ∷ bs) = parse_digits (word - 1) 0 (b ∷ bs)

abbrev pub NoCr : Bytes → Type 0
NoCr [] = Unit
NoCr (b ∷ bs) = (b ≢ 13) × NoCr bs

-- Bytes from the digit zero on, which neither a line end nor a minus sign is.
abbrev pub Digits : Bytes → Type 0
Digits [] = Unit
Digits (b ∷ bs) = (48 ≤ b) × Digits bs

pub Digits-NoCr : (bs : Bytes) → Digits bs → NoCr bs
Digits-NoCr [] h = tt
Digits-NoCr (b ∷ bs) h = (λ e. omega (arith, e, h.0), Digits-NoCr bs h.1)

Digits-append : (xs ys : Bytes) → Digits xs → Digits ys → Digits (xs ++ ys)
Digits-append [] ys h k = k
Digits-append (x ∷ xs) ys h k = (h.0, Digits-append xs ys h.1 k)

module _ (top : ℕ) where
  parse_digits-append :
      (value n : ℕ) (xs ys : Bytes)
      → parse_digits top value xs ≡ ok n
      → parse_digits top value (xs ++ ys) ≡ parse_digits top n ys
  unfolding parse_digits
  parse_digits-append value n [] ys h = ground arith
  parse_digits-append value n (x ∷ xs) ys h =
      ground (arith, parse_digits-append (push_digit top value x) n xs ys)

  last_digit : (v : ℕ) → v ≤ top → parse_digits top (v / 10) ((48 + v % 10) ∷ []) ≡ ok v
  unfolding parse_digits push_digit is_ascii_digit
  last_digit v h = ground arith

  digits_from-parse :
      (room v : ℕ)
      → v < 10 ^ room
      → v ≤ top
      → (ds : Bytes) × (digits_from room v ≡ ret ds)
        × Digits (reverse ds)
        × (parse_digits top 0 (reverse ds) ≡ ok v)
  unfolding digits_from parse_digits
  digits_from-parse zero v h w = ([], ground arith, tt, ap ok (omega arith))
  digits_from-parse (suc room) v h w = elim (Bool-cases (v == 0)) [
    | inl z ↦ ([], rw (z, digits_from), tt, ap ok (sym ((==_iff v 0).0 z)))
    | inr p ↦
        let (ds, r, nc, pd) =
          digits_from-parse room (v / 10) (omega (arith, pow-suc 10 room)) (omega arith) in
        (
          (48 + v % 10) ∷ ds,
          rw (p, digits_from) (rw r),
          subst Digits (sym (reverse-cons (48 + v % 10) ds))
              (Digits-append (reverse ds) ((48 + v % 10) ∷ []) nc (omega arith, tt)),
          ap (parse_digits top 0) (reverse-cons (48 + v % 10) ds)
              ∙ parse_digits-append 0 (v / 10) (reverse ds) ((48 + v % 10) ∷ []) pd
              ∙ last_digit v w,
        )
  ]

  digits-ne : (ds : Bytes) (v : ℕ) → v ≢ 0 → parse_digits top 0 ds ≡ ok v → ds ≢ []
  unfolding parse_digits
  digits-ne [] v n h e = ground arith
  digits-ne (b ∷ bs) v n h e = cc

  zero_digit : (v : ℕ) → v == 0 ≡ true → parse_digits top 0 (48 ∷ []) ≡ ok v
  unfolding parse_digits push_digit is_ascii_digit
  zero_digit v z = ground (arith, ==_iff v 0)

  -- The digits that `push_usize` appends.
  pub push_usize-Digits :
      (out : Bytes) (v : ℕ)
      → v < word
      → v ≤ top
      → (ds : Bytes) × (push_usize out v ≡ ret (out ++ ds))
        × Digits ds
        × (ds ≢ [])
        × (parse_digits top 0 ds ≡ ok v)
  unfolding push_usize
  push_usize-Digits out v w le = elim (Bool-cases (v == 0)) [
    | inl z ↦ (48 ∷ [], rw z, (omega arith, tt), λ e. cc, zero_digit v z)
    | inr p ↦
        let (ds, r, nc, pd) = digits_from-parse 20 v (omega arith) le in
        (reverse ds, rw p (rw r), nc, digits-ne (reverse ds) v (λ e. ground (arith, e)) pd, pd)
  ]

parse_usize-some : (bs : Bytes) → bs ≢ [] → parse_usize bs ≡ parse_digits (word - 1) 0 bs
unfolding parse_usize
parse_usize-some [] n = absurd (n refl)
parse_usize-some (b ∷ bs) n = refl

-- `push_usize` of a machine word does not panic. What it appends has no carriage return, and
-- `parse_usize` reads the number back from it.
pub push_usize-parse_usize :
    (out : Bytes) (v : ℕ)
    → v < word
    → (ds : Bytes) × (push_usize out v ≡ ret (out ++ ds)) × NoCr ds × (parse_usize ds ≡ ok v)
push_usize-parse_usize out v w =
    let (ds, r, d, n, p) = push_usize-Digits (word - 1) out v w (omega arith) in
    (ds, r, Digits-NoCr ds d, parse_usize-some ds n ∙ p)
