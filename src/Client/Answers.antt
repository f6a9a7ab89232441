-- ===== src/Client/Answers.antt =====
-- What the reader of hkv-client/src/resp.rs makes of the replies of hkv-server/src/server.rs.
use hybird_kv.Prelude.{
  ℕ, suc, ◌≡◌, refl, sym, ◌∙◌, ap, [], ◌∷◌, ◌++◌, append_assoc, Bytes, bytes, Option, none, some,
  Outcome, ret, arith, true, leb, length, length-append, bytes_eq,
}
use hybird_kv.Prelude.Int.{negsuc}
use hybird_kv.Wire.Decimal
use hybird_kv.Wire.Decimal.{parse_digits, push_digit, is_ascii_digit}
use hybird_kv.Wire.Lines.{take_front, drop_front}
use hybird_kv.Wire.Encoded.{same_result}
use hybird_kv.Client.Error.{ErrorKind, ClientResult, ok}
use hybird_kv.Client.Response.{
  RespValue, simple, error, integer, bulk, Reader, read_exact, read_bulk, parse_bulk_len, parse_i64,
  read_value, read_response, after_line,
}
use hybird_kv.Server.Commands
use hybird_kv.Server.Commands.{Reply}
use hybird_kv.Server.Respond.{resp}
use hybird_kv.Client.Frames.{
  Plain, Frame, of_simple, of_error, of_integer, of_bulk, of_null, resp-Framed, read_line-line,
}

-- The value that a client gets for a reply of the server.
unfoldable pub value_of : Reply → RespValue
value_of (Commands.simple message) = simple message
value_of (Commands.error message) = error (bytes "ERR " ++ message)
value_of (Commands.integer n) = integer n
value_of (Commands.bulk payload) = bulk (some payload)
value_of Commands.null = bulk none

pub read_exact-front :
    (xs ys : Bytes) (failure : Option ErrorKind) (buffer : Bytes)
    → read_exact (length xs) (record { input = xs ++ ys; failure = failure; line_buf = buffer })
      ≡ (record { input = ys; failure = failure; line_buf = buffer }, ok xs)
unfolding read_exact
read_exact-front xs ys failure buffer =
    let fits : leb (length xs) (length (xs ++ ys)) ≡ true = ground (arith, length-append xs ys) in
    rw (fits, read_exact) (rw (take_front xs ys) (rw (drop_front xs ys) refl))

read_bulk-front :
    (payload rest : Bytes) (failure : Option ErrorKind) (buffer : Bytes)
    → read_bulk
        (length payload)
        (record { input = payload ++ 13 ∷ 10 ∷ rest; failure = failure; line_buf = buffer })
      ≡ (record { input = rest; failure = failure; line_buf = [] }, ok (bulk (some payload)))
unfolding read_bulk bytes_eq
read_bulk-front payload rest failure buffer =
    rw (read_exact-front payload (13 ∷ 10 ∷ rest) failure buffer, read_bulk)
      (rw (read_exact-front (13 ∷ 10 ∷ []) rest failure buffer) refl)

-- The buffer that is left after a reply.
left_buffer : Reply → Bytes → Bytes
left_buffer (Commands.bulk _) line = []
left_buffer _ line = line

minus_one : parse_i64 (45 ∷ 49 ∷ []) ≡ Decimal.ok (negsuc 0)
unfolding parse_i64 parse_digits push_digit is_ascii_digit
minus_one = refl

read_value-Frame :
    (item_size : ℕ) (read : Reader → Outcome (Reader × ClientResult RespValue)) (r : Reply)
    (line tail rest : Bytes) (failure : Option ErrorKind)
    → Frame r line tail
    → read_value item_size read
        (record { input = tail ++ rest; failure = failure; line_buf = line })
      ≡ ret (
        record { input = rest; failure = failure; line_buf = left_buffer r line },
        ok (value_of r),
      )
unfolding read_value value_of left_buffer parse_bulk_len
read_value-Frame size read _ _ _ rest failure (of_simple message) = refl
read_value-Frame size read _ _ _ rest failure (of_error message) = refl
read_value-Frame size read _ _ _ rest failure (of_integer n ds p) = rw (p, read_value) refl
read_value-Frame size read _ _ _ rest failure (of_bulk payload ds p) =
    rw (p, read_value)
      (ap
          (λ bs. ret (
            read_bulk (length payload)
              (record { input = bs; failure = failure; line_buf = 36 ∷ ds })))
          (append_assoc payload (13 ∷ 10 ∷ []) rest)
        ∙ ap ret (read_bulk-front payload rest failure (36 ∷ ds)))
read_value-Frame size read _ _ _ rest failure of_null = rw (minus_one, read_value) refl

-- A reply whose text has no line end, whose integer fits 64 bits and is not -2^63, and whose data
-- has at most 2^63-1 bytes, as the server writes it, is read by the client as the value of that
-- reply, whatever follows it and however the stream ends; what follows stays in the stream.
pub resp-read_response :
    (r : Reply) (bytes rest before : Bytes) (failure : Option ErrorKind) (item_size depth : ℕ)
    → Plain r
    → resp r ≡ ret bytes
    → (buffer : Bytes) × (read_response item_size
          (suc depth)
          (record { input = bytes ++ rest; failure = failure; line_buf = before })
        ≡ ret (record { input = rest; failure = failure; line_buf = buffer }, ok (value_of r)))
unfolding read_response after_line
resp-read_response r bytes rest before failure size depth h w =
    let (bytes', w', f) = resp-Framed r h in
    let e : bytes ≡ f.line ++ 13 ∷ 10 ∷ f.tail = same_result bytes bytes' (sym w ∙ w') ∙ f.split in
    (
      left_buffer r f.line,
      ap
            (λ bs.
              read_response size (suc depth)
                (record { input = bs; failure = failure; line_buf = before }))
            (ap (λ bs. bs ++ rest) e ∙ append_assoc f.line (13 ∷ 10 ∷ f.tail) rest)
          ∙ ap (after_line size (read_response size depth))
              (read_line-line f.line (f.tail ++ rest) failure before f.one_line)
          ∙ (read_value-Frame size (read_response size depth) r f.line f.tail rest failure f.frame),
    )
