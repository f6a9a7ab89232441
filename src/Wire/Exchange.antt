-- ===== src/Wire/Exchange.antt =====
-- What the client encodes, the server parses back.
use hybird_kv.Prelude.{
  ℕ, zero, suc, ◌*◌, ◌<◌, ◌≤◌, ◌≡◌, refl, ◌∙◌, ap, some, List, [], ◌∷◌, ◌++◌, append_assoc, Bytes,
  ret, arith, length, ◌==◌,
}
use hybird_kv.Engine.Word.{word}
use hybird_kv.Wire.Decimal.{ok}
use hybird_kv.Wire.Encode.{encode_command}
use hybird_kv.Wire.Buffer.{BytesMut}
use hybird_kv.Wire.Parser.{RespParser, array_len, bulk_len, parse}
use hybird_kv.Wire.Encoded.{Fit, Body, Body-nil, encode_command-Command, argument}
use hybird_kv.Wire.Rounds.{
  left_over, some_left, after, two_rounds, round-array_len, on_array_len-line,
}

module _ {Buf : Type 0} ⦃m : BytesMut Buf⦄ where
  parse-Body :
      (fuel : ℕ) (a : Bytes) (args : List Bytes) (body rest : Bytes) (p : RespParser) (buf : Buf)
      → 2 * length (a ∷ args) ≤ fuel
      → Body (a ∷ args) body
      → Fit (a ∷ args)
      → length (a ∷ args) < word
      → p.state ≡ bulk_len
      → p.remaining ≡ length (a ∷ args)
      → m.contents buf ≡ body ++ rest
      → (p' : RespParser) × (buf' : Buf) × (parse fuel p buf
          ≡ ret (p', buf', ok (some (p.args ++ a ∷ args))))
        × (p'.state ≡ array_len)
        × (m.contents buf' ≡ rest)
  parse-Body zero a args body rest p buf le b fit few st n h = absurd (omega arith)
  parse-Body (suc zero) a args body rest p buf le b fit few st n h = absurd (omega arith)
  parse-Body (suc (suc fuel)) _ _ _ rest p buf le (argument a [] ds tail w b) fit few st n h =
      let (b2, k2, r) =
        two_rounds fuel p buf a ds (tail ++ rest) (h ∙ simp append_assoc) w fit.0 st in
      (
        after p a array_len [],
        b2,
        r ∙ rw (ap (λ k. k == 0) (left_over p 0 n few)),
        refl,
        k2 ∙ ap (λ zs. zs ++ rest) (Body-nil tail b),
      )
  parse-Body (suc (suc fuel)) _ _ _ rest p buf le (argument a (a2 ∷ args) ds tail w b) fit few st n
        h =
      let (b2, k2, r) =
        two_rounds fuel p buf a ds (tail ++ rest) (h ∙ simp append_assoc) w fit.0 st in
      let (p', buf', q, s, k) =
        parse-Body fuel a2 args tail rest (after p a bulk_len (p.args ++ a ∷ [])) b2 (omega arith) b
          fit.1 (omega arith) refl (left_over p _ n few) k2 in
      (
        p',
        buf',
        r
            ∙ rw (ap (λ k. k == 0) (left_over p _ n few) ∙ some_left (length args)) (
                q
                ∙ ap (λ zs. ret (p', buf', ok (some zs)))
                    (append_assoc p.args (a ∷ []) (a2 ∷ args))),
        s,
        k,
      )

  -- A command is a list of at least one argument, fewer than 2^64, each of a length that leaves
  -- room for a line end in 64 bits. If a buffer starts with the bytes that `encode_command` gives
  -- for it, and the parser is between commands, then `parse` returns its arguments, in two rounds
  -- for each and one for the count. It takes exactly those bytes from the buffer and is between
  -- commands again.
  pub encode_command-parse :
      (a : Bytes) (args : List Bytes) (bytes rest : Bytes) (fuel : ℕ) (p : RespParser) (buf : Buf)
      → Fit (a ∷ args)
      → length (a ∷ args) < word
      → 2 * length (a ∷ args) < fuel
      → encode_command (a ∷ args) [] ≡ ret bytes
      → p.state ≡ array_len
      → m.contents buf ≡ bytes ++ rest
      → (p' : RespParser) × (buf' : Buf) × (parse fuel p buf ≡ ret (p', buf', ok (some (a ∷ args))))
        × (p'.state ≡ array_len)
        × (m.contents buf' ≡ rest)
  unfolding parse
  encode_command-parse a args bytes rest zero p buf fit few more enc st h = absurd (omega arith)
  encode_command-parse a args bytes rest (suc fuel) p buf fit few more enc st h =
      let c = encode_command-Command (a ∷ args) bytes fit few enc in
      let (b1, r1, k1) =
        on_array_len-line p buf (length args) c.count (c.body ++ rest)
          (h ∙ ap (λ zs. zs ++ rest) c.split ∙ simp append_assoc) c.counted in
      let p1 : RespParser = record p {
        args = [];
        remaining = length (a ∷ args);
        state = bulk_len;
      } in
      let (p', b2, e, s, k) =
        parse-Body fuel a args c.body rest p1 b1 (omega arith) c.arguments fit few refl refl k1 in
      (p', b2, rw (round-array_len p buf st ∙ r1) e, s, k)
