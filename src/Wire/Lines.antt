-- ===== src/Wire/Lines.antt =====
-- `read_line` on a buffer that starts with a whole line.
use hybird_kv.Prelude.{
  ℕ, ◌≡◌, refl, ◌∙◌, ap, some, [], ◌∷◌, ◌++◌, Bytes, ret, arith, length, take, drop, length-append,
}
use hybird_kv.Wire.Decimal.{NoCr}
use hybird_kv.Wire.Buffer.{BytesMut}
use hybird_kv.Wire.Parser.{line_end, read_line}

line_end-line :
    (line rest : Bytes) → NoCr line → line_end (line ++ 13 ∷ 10 ∷ rest) ≡ some (length line)
unfolding line_end
line_end-line [] rest h = refl
line_end-line (x ∷ []) rest h = refl
line_end-line (x ∷ y ∷ line) rest h = ground (arith, line_end-line (y ∷ line) rest h.1)

pub take_front : (xs ys : Bytes) → take (length xs) (xs ++ ys) ≡ xs
take_front [] ys = refl
take_front (x ∷ xs) ys = ap (◌∷◌ x) (take_front xs ys)

pub drop_front : (xs ys : Bytes) → drop (length xs) (xs ++ ys) ≡ ys
drop_front [] ys = refl
drop_front (x ∷ xs) ys = drop_front xs ys

module _ {Buf : Type 0} ⦃m : BytesMut Buf⦄ (buf : Buf) where
  -- `split_to` of a known front.
  pub split_front :
      (xs ys : Bytes)
      → m.contents buf ≡ xs ++ ys
      → (front rest : Buf) × (m.split_to (length xs) buf ≡ ret (front, rest))
        × (m.contents front ≡ xs)
        × (m.contents rest ≡ ys)
  split_front xs ys h =
      let (front, rest, r, f, g) =
        m.split_to-ret (length xs) buf
          (omega (arith, ap (length {A = ℕ}) h, length-append xs ys)) in
      (
        front,
        rest,
        r,
        f ∙ ap (take (length xs)) h ∙ take_front xs ys,
        g ∙ ap (drop (length xs)) h ∙ drop_front xs ys,
      )

  -- A line with no carriage return inside is read whole, and what follows it stays.
  pub read_line-line :
      (line rest : Bytes)
      → m.contents buf ≡ line ++ 13 ∷ 10 ∷ rest
      → NoCr line
      → (buf' l : Buf) × (read_line buf ≡ ret (buf', some l))
        × (m.contents l ≡ line)
        × (m.contents buf' ≡ rest)
  unfolding read_line
  read_line-line line rest h nc =
      let (l, b, r, f, g) = split_front line (13 ∷ 10 ∷ rest) h in
      let (buf', a, k) = m.advance-ret 2 b (omega (arith, ap (length {A = ℕ}) g)) in
      (
        buf',
        l,
        rw (ap line_end h ∙ line_end-line line rest nc, read_line) (rw r (rw a)),
        f,
        k ∙ ap (drop 2) g,
      )
