-- ===== src/Wire/Rounds.antt =====
-- The rounds of `parse` on what the client writes.
use hybird_kv.Prelude.{
  ℕ, suc, ◌+◌, ◌<◌, ◌≤◌, ◌≡◌, refl, ◌∙◌, ap, some, List, [], ◌∷◌, ◌++◌, Bytes, ret, arith, length,
  length-append, ltb, ◌==◌, if◌then◌else◌, false, Bool-cases, inl, inr,
}
use hybird_kv.Engine.Word.{word, add_word, sub_word}
use hybird_kv.Wire.Decimal.{ok}
use hybird_kv.Wire.Buffer.{BytesMut}
use hybird_kv.Wire.Parser.{
  RespParser, ParseState, array_len, bulk_len, bulk_data, go_on, done, starts_with, on_array_len,
  on_bulk_len, on_bulk_data, ends_badly, round, parse,
}
use hybird_kv.Wire.Lines.{split_front, read_line-line}
use hybird_kv.Wire.Encoded.{Writes}

not_below : (a b : ℕ) → b ≤ a → ltb a b ≡ false
not_below a b h = ground arith

sub_word-one : (n : ℕ) → suc n < word → sub_word (suc n) 1 ≡ n
unfolding sub_word
sub_word-one n h = omega arith

pub left_over :
    (p : RespParser) (n : ℕ) → p.remaining ≡ suc n → suc n < word → sub_word p.remaining 1 ≡ n
left_over p n h few = ap (λ r. sub_word r 1) h ∙ sub_word-one n few

pub some_left : (n : ℕ) → (suc n == 0) ≡ false
some_left n = ground arith

-- The parser after an argument.
abbrev pub after : RespParser → Bytes → ParseState → List Bytes → RespParser
after p a state args = record {
  state = state;
  args = args;
  remaining = sub_word p.remaining 1;
  bulk_len = length a;
}

module _ {Buf : Type 0} ⦃m : BytesMut Buf⦄ where
  on_bulk_len-line :
      (p : RespParser) (buf : Buf) (n : ℕ) (ds rest : Bytes)
      → m.contents buf ≡ 36 ∷ ds ++ 13 ∷ 10 ∷ rest
      → Writes n ds
      → (buf' : Buf) × (on_bulk_len p buf
          ≡ ret (record p { bulk_len = n; state = bulk_data }, buf', go_on))
        × (m.contents buf' ≡ rest)
  unfolding on_bulk_len starts_with
  on_bulk_len-line p buf n ds rest h w =
      let (buf', l, r, f, g) = read_line-line buf (36 ∷ ds) rest h ((λ e. omega (arith, e)), w.0) in
      (buf', rw r (rw f (rw w.1)), g)

  ends_badly-crlf :
      (buf : Buf) (rest : Bytes)
      → m.contents buf ≡ 13 ∷ 10 ∷ rest
      → (buf' : Buf) × (ends_badly buf ≡ ret (buf', false)) × (m.contents buf' ≡ rest)
  unfolding ends_badly
  ends_badly-crlf buf rest h =
      let (b1, r1, g1) = m.get_u8-ret buf 13 (10 ∷ rest) h in
      let (b2, r2, g2) = m.get_u8-ret b1 10 rest g1 in (b2, rw r1 (rw r2), g2)

  on_bulk_data-argument :
      (p : RespParser) (buf : Buf) (a rest : Bytes)
      → m.contents buf ≡ a ++ 13 ∷ 10 ∷ rest
      → length a + 2 < word
      → p.bulk_len ≡ length a
      → (buf' : Buf) × (m.contents buf' ≡ rest)
        × (on_bulk_data p buf ≡ (
            if sub_word p.remaining 1 == 0
            then ret (
              record p { args = []; remaining = sub_word p.remaining 1; state = array_len },
              buf',
              done (ok (some (p.args ++ a ∷ []))),
            )
            else ret (
              record p {
                args = p.args ++ a ∷ [];
                remaining = sub_word p.remaining 1;
                state = bulk_len;
              },
              buf',
              go_on,
            )))
  unfolding on_bulk_data add_word
  on_bulk_data-argument p buf a rest h fits len =
      let (front, b1, r, f, g) = split_front buf a (13 ∷ 10 ∷ rest) h in
      let (b2, s, k) = ends_badly-crlf b1 rest g in
      let sum : add_word p.bulk_len 2 ≡ length a + 2 = omega arith in
      let size : length (m.contents buf) ≡ length a + suc (suc (length rest)) =
        ap (length {A = ℕ}) h ∙ length-append a (13 ∷ 10 ∷ rest) in
      let there : ltb (length (m.contents buf)) (add_word p.bulk_len 2) ≡ false =
        not_below _ _ (omega arith) in
      (b2, k, rw (there, on_bulk_data) (rw len (rw r (rw s (rw f)))))

  round-bulk_len :
      (p : RespParser) (buf : Buf) → p.state ≡ bulk_len → round p buf ≡ on_bulk_len p buf
  unfolding round
  round-bulk_len p buf st = ground arith

  round-bulk_data :
      (p : RespParser) (buf : Buf) → p.state ≡ bulk_data → round p buf ≡ on_bulk_data p buf
  unfolding round
  round-bulk_data p buf st = ground arith

  pub round-array_len :
      (p : RespParser) (buf : Buf) → p.state ≡ array_len → round p buf ≡ on_array_len p buf
  unfolding round
  round-array_len p buf st = ground arith

  pub two_rounds :
      (fuel : ℕ) (p : RespParser) (buf : Buf) (a ds rest : Bytes)
      → m.contents buf ≡ 36 ∷ ds ++ (13 ∷ 10 ∷ (a ++ (13 ∷ 10 ∷ rest)))
      → Writes (length a) ds
      → length a + 2 < word
      → p.state ≡ bulk_len
      → (buf' : Buf) × (m.contents buf' ≡ rest)
        × (parse (suc (suc fuel)) p buf ≡ (
            if sub_word p.remaining 1 == 0
            then ret (
              record {
                state = array_len;
                args = [];
                remaining = sub_word p.remaining 1;
                bulk_len = length a;
              },
              buf',
              ok (some (p.args ++ a ∷ [])),
            )
            else parse fuel
                (record {
                  state = bulk_len;
                  args = p.args ++ a ∷ [];
                  remaining = sub_word p.remaining 1;
                  bulk_len = length a;
                })
                buf'))
  unfolding parse
  two_rounds fuel p buf a ds rest h w fits st =
      let (b1, r1, k1) = on_bulk_len-line p buf (length a) ds (a ++ (13 ∷ 10 ∷ rest)) h w in
      let p1 : RespParser = record p { bulk_len = length a; state = bulk_data } in
      let (b2, k2, r2) = on_bulk_data-argument p1 b1 a rest k1 fits refl in
      (
        b2,
        k2,
        rw (round-bulk_len p buf st ∙ r1) (
            rw (round-bulk_data p1 b1 refl ∙ r2)
              (elim (Bool-cases (sub_word p.remaining 1 == 0)) [ inl z ↦ rw z | inr z ↦ rw z ])),
      )

  pub on_array_len-line :
      (p : RespParser) (buf : Buf) (n : ℕ) (ds rest : Bytes)
      → m.contents buf ≡ 42 ∷ ds ++ (13 ∷ 10 ∷ rest)
      → Writes (suc n) ds
      → (buf' : Buf) × (on_array_len p buf
          ≡ ret (record p { args = []; remaining = suc n; state = bulk_len }, buf', go_on))
        × (m.contents buf' ≡ rest)
  unfolding on_array_len starts_with
  on_array_len-line p buf n ds rest h w =
      let (buf', l, r, f, g) = read_line-line buf (42 ∷ ds) rest h ((λ e. omega (arith, e)), w.0) in
      (buf', rw r (rw f (rw w.1 (rw (some_left n)))), g)
