-- ===== src/Client/Response.antt =====
-- hkv-client/src/resp.rs: the reader of replies. A stream is the bytes that are still to come and
-- how it ends after them: the peer closes it, or reading fails with an I/O error.
use hybird_kv.Prelude.{
  ℕ, zero, suc, ◌-◌, ◌*◌, ◌^◌, ◌||◌, not, Option, none, some, [], ◌∷◌, Bytes, Outcome, ret, panic,
  ◌>>=◌, length, take, drop, get_or, ltb, leb, ◌==◌, bytes_eq, if◌then◌else◌,
}
use hybird_kv.Prelude.Int.{ℤ, pos, negsuc}
use hybird_kv.Wire.Decimal.{Parsed, parse_digits}
use hybird_kv.Wire.Decimal
use hybird_kv.Client.Error.{ErrorKind, unexpected_eof, io, protocol, ClientResult, ok, err}

mutual
  pub data RespValue : Type 0 where
    simple error : Bytes → RespValue
    integer : ℤ → RespValue
    bulk : Option Bytes → RespValue
    array : RespValues → RespValue

  pub data RespValues : Type 0 where
    nil : RespValues
    cons : RespValue → RespValues → RespValues

-- The reader, and the line buffer that is passed with it. `failure` is `none` for a stream that the
-- peer closes.
pub record Reader : Type 0 where
  pub input : Bytes
  pub failure : Option ErrorKind
  pub line_buf : Bytes

-- `read_until(b'\n', buf)`: what it appends, and what stays, when there is a line end
unfoldable pub until_lf : Bytes → Option (Bytes × Bytes)
until_lf [] = none
until_lf (b ∷ bs) =
    let rest = until_lf bs in
    if b == 10
    then some (b ∷ [], bs)
    else elim rest [ none ↦ none | some found ↦ some (b ∷ found.0, found.1) ]

-- `read_line` after `read_until`, with the bytes read in the buffer
unfoldable pub finish_line : Reader → Reader × ClientResult Unit
finish_line r =
    let n = length r.line_buf in
    if n == 0 || (ltb n 2 || not (get_or r.line_buf (n - 2) 0 == 13))
    then (r, err protocol)
    else (record r { line_buf = take (n - 2) r.line_buf }, ok tt)

unfoldable pub read_line : Reader → Reader × ClientResult Unit
unfolding until_lf
read_line r = elim (until_lf r.input) [
  | some found ↦ finish_line (record r { input = found.1; line_buf = found.0 })
  | none ↦
      let r' : Reader = record r { input = []; line_buf = r.input } in
      elim r.failure [ none ↦ finish_line r' | some kind ↦ (r', err (io kind)) ]
]

-- `read_exact` of `n` bytes
unfoldable pub read_exact : ℕ → Reader → Reader × ClientResult Bytes
read_exact n r =
    if leb n (length r.input) then (record r { input = drop n r.input }, ok (take n r.input)) else (
      record r { input = [] },
      err (io (elim r.failure [ none ↦ unexpected_eof | some kind ↦ kind ])),
    )

abbrev pub i64_max : ℕ
i64_max = 2 ^ 63 - 1

abbrev pub negate : ℕ → ℤ
negate zero = pos 0
negate (suc n) = negsuc n

unfoldable pub parse_i64 : Bytes → Parsed ℤ
parse_i64 [] = Decimal.protocol
parse_i64 (b ∷ bs) =
    if b == 45
    then elim (parse_digits i64_max 0 bs) [
      | Decimal.ok value ↦ Decimal.ok (negate value)
      | Decimal.protocol ↦ Decimal.protocol
    ]
    else elim (parse_digits i64_max 0 (b ∷ bs)) [
      | Decimal.ok value ↦ Decimal.ok (pos value)
      | Decimal.protocol ↦ Decimal.protocol
    ]

-- the `?` operator: the first error is the result
abbrev pub and_then :
    {A B : Type 0}
    → Reader × ClientResult A
    → (Reader → A → Reader × ClientResult B)
    → Reader × ClientResult B
and_then (r, ok a) next = next r a
and_then (r, err e) next = (r, err e)

-- the data and the line end of a bulk string of `len` bytes
unfoldable pub read_bulk : ℕ → Reader → Reader × ClientResult RespValue
read_bulk len r = and_then (read_exact len r) (λ r1 payload. and_then (read_exact 2 r1) (λ r2 crlf.
    if bytes_eq crlf (13 ∷ 10 ∷ [])
    then (record r2 { line_buf = [] }, ok (bulk (some payload)))
    else (r2, err protocol)))

unfoldable pub parse_bulk_len : ℤ → Reader → Reader × ClientResult RespValue
parse_bulk_len (negsuc _) r = (r, ok (bulk none))
parse_bulk_len (pos len) r = read_bulk len r

-- The loop of `parse_array_len`, which reads `count` items with `read`.
unfoldable pub read_items :
    (Reader → Outcome (Reader × ClientResult RespValue))
    → ℕ
    → Reader
    → Outcome (Reader × ClientResult RespValues)
read_items read zero r = ret (r, ok nil)
read_items read (suc count) r = do
  (r1, item_read) ← read r
  elim item_read [
    | err e ↦ ret (r1, err e)
    | ok item ↦ do
      (r2, items_read) ← read_items read count r1
      ret (r2, elim items_read [ err e ↦ err e | ok items ↦ ok (cons item items) ])
  ]

-- `Vec::with_capacity(len)` panics if the items, of `item_size` bytes each, do not fit in memory
-- that an `isize` measures.
unfoldable pub parse_array_len :
    ℕ
    → (Reader → Outcome (Reader × ClientResult RespValue))
    → ℤ
    → Reader
    → Outcome (Reader × ClientResult RespValue)
parse_array_len item_size read (negsuc _) r = ret (r, ok (array nil))
parse_array_len item_size read (pos len) r =
    if len == 0
    then ret (r, ok (array nil))
    else if ltb i64_max (len * item_size)
    then panic
    else (do
      (r', items_read) ← read_items read len r
      ret (r', elim items_read [ err e ↦ err e | ok items ↦ ok (array items) ]))

-- The value that a line starts, by its first byte.
unfoldable pub read_value :
    ℕ
    → (Reader → Outcome (Reader × ClientResult RespValue))
    → Reader
    → Outcome (Reader × ClientResult RespValue)
read_value item_size read r = elim r.line_buf [
  | [] ↦ ret (r, err protocol)
  | b ∷ line ↦
      if b == 43
      then ret (r, ok (simple line))
      else if b == 45
      then ret (r, ok (error line))
      else if b == 58
      then ret (
        r,
        elim (parse_i64 line) [ Decimal.ok n ↦ ok (integer n) | Decimal.protocol ↦ err protocol ],
      )
      else if b == 36
      then elim (parse_i64 line) [
        | Decimal.ok len ↦ ret (parse_bulk_len len r)
        | Decimal.protocol ↦ ret (r, err protocol)
      ]
      else if b == 42
      then elim (parse_i64 line) [
        | Decimal.ok len ↦ parse_array_len item_size read len r
        | Decimal.protocol ↦ ret (r, err protocol)
      ]
      else ret (r, err protocol)
]

-- what `read_response` does after `read_line`
unfoldable pub after_line :
    ℕ
    → (Reader → Outcome (Reader × ClientResult RespValue))
    → Reader × ClientResult Unit
    → Outcome (Reader × ClientResult RespValue)
after_line item_size read (r, err e) = ret (r, err e)
after_line item_size read (r, ok _) = read_value item_size read r

-- `read_response`, for arrays inside arrays to a depth of `fuel`
unfoldable pub read_response : ℕ → ℕ → Reader → Outcome (Reader × ClientResult RespValue)
unfolding after_line
read_response item_size zero r = panic
read_response item_size (suc fuel) r =
    after_line item_size (read_response item_size fuel) (read_line r)
