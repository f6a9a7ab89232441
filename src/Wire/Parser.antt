-- ===== src/Wire/Parser.antt =====
-- hkv-server/src/protocol.rs: the parser of commands. A round of the loop of `parse` is one of
-- three functions, by the parser's state.
use hybird_kv.Prelude.{
  ℕ, zero, suc, Bool, true, false, ◌&&◌, not, Option, none, some, List, [], ◌∷◌, ◌++◌, Bytes,
  Outcome, ret, panic, ◌>>=◌, length, drop, ltb, ◌==◌, if◌then◌else◌,
}
use hybird_kv.Engine.Word.{add_word, sub_word}
use hybird_kv.Wire.Decimal.{Parsed, ok, protocol, parse_usize}
use hybird_kv.Wire.Buffer.{BytesMut}

pub data ParseState : Type 0 where
  array_len bulk_len bulk_data : ParseState

pub record RespParser : Type 0 where
  pub state : ParseState
  pub args : List Bytes
  pub remaining : ℕ
  pub bulk_len : ℕ

abbrev pub start : RespParser
start = record { state = array_len; args = []; remaining = 0; bulk_len = 0 }

-- What a round does: it returns from `parse` with a result, or goes on.
pub data Round : Type 0 where
  go_on : Round
  done : Parsed (Option (List Bytes)) → Round

-- `line.first() == Some(&byte)`
unfoldable pub starts_with : ℕ → Bytes → Bool
starts_with byte [] = false
starts_with byte (b ∷ bs) = b == byte

-- `data.split(|byte| *byte == b' ')`
unfoldable pub split_spaces : Bytes → List Bytes
split_spaces [] = [] ∷ []
split_spaces (b ∷ bs) =
    let rest = split_spaces bs in
    if b == 32 then [] ∷ rest else elim rest [ [] ↦ (b ∷ []) ∷ [] | s ∷ ss ↦ (b ∷ s) ∷ ss ]

unfoldable pub non_empty : List Bytes → List Bytes
non_empty [] = []
non_empty ([] ∷ ss) = non_empty ss
non_empty ((b ∷ s) ∷ ss) = (b ∷ s) ∷ non_empty ss

unfoldable pub parse_inline_command : Bytes → Parsed (List Bytes)
unfolding split_spaces non_empty
parse_inline_command line = elim (non_empty (split_spaces line)) [
  | [] ↦ protocol
  | s ∷ ss ↦ ok (s ∷ ss)
]

-- the `while` loop of `read_line`: `idx - 1` for the first `idx` where the line ends
unfoldable pub line_end : Bytes → Option ℕ
line_end [] = none
line_end (a ∷ []) = none
line_end (a ∷ b ∷ bs) =
    let rest = line_end (b ∷ bs) in
    if b == 10 && a == 13 then some 0 else elim rest [ none ↦ none | some i ↦ some (suc i) ]

module _ {Buf : Type 0} ⦃m : BytesMut Buf⦄ where
  unfoldable pub read_line : Buf → Outcome (Buf × Option Buf)
  read_line buf = elim (line_end (m.contents buf)) [
    | none ↦ ret (buf, none)
    | some i ↦ do (line, rest) ← m.split_to i buf; buf' ← m.advance 2 rest; ret (buf', some line)
  ]

  unfoldable pub on_array_len : RespParser → Buf → Outcome (RespParser × Buf × Round)
  on_array_len p buf = do
    (buf', read) ← read_line buf
    ret (elim read [
      | none ↦ (p, buf', done (ok none))
      | some line ↦
          if starts_with 42 (m.contents line)
          then elim (parse_usize (drop 1 (m.contents line))) [
            | protocol ↦ (p, buf', done protocol)
            | ok count ↦
                if count == 0
                then (
                  record p { args = []; remaining = count; state = array_len },
                  buf',
                  done (ok (some [])),
                )
                else (record p { args = []; remaining = count; state = bulk_len }, buf', go_on)
          ]
          else elim (parse_inline_command (m.contents line)) [
            | protocol ↦ (p, buf', done protocol)
            | ok args ↦ (p, buf', done (ok (some args)))
          ]
    ])

  unfoldable pub on_bulk_len : RespParser → Buf → Outcome (RespParser × Buf × Round)
  on_bulk_len p buf = do
    (buf', read) ← read_line buf
    ret (elim read [
      | none ↦ (p, buf', done (ok none))
      | some line ↦
          if starts_with 36 (m.contents line)
          then elim (parse_usize (drop 1 (m.contents line))) [
            | protocol ↦ (p, buf', done protocol)
            | ok len ↦ (record p { bulk_len = len; state = bulk_data }, buf', go_on)
          ]
          else (p, buf', done protocol)
    ])

  -- `buf.get_u8() != b'\r' || buf.get_u8() != b'\n'`: the second byte is read only after a `\r`
  unfoldable pub ends_badly : Buf → Outcome (Buf × Bool)
  ends_badly buf = do
    (buf1, cr) ← m.get_u8 buf
    if cr == 13
        then (do (buf2, lf) ← m.get_u8 buf1; ret (buf2, not (lf == 10)))
        else ret (buf1, true)

  unfoldable pub on_bulk_data : RespParser → Buf → Outcome (RespParser × Buf × Round)
  on_bulk_data p buf =
      if ltb (length (m.contents buf)) (add_word p.bulk_len 2)
      then ret (p, buf, done (ok none))
      else (do
        (data_buf, rest) ← m.split_to p.bulk_len buf
        (buf', bad) ← ends_badly rest
        if bad then ret (p, buf', done protocol) else (do
          let args = p.args ++ m.contents data_buf ∷ []
          let remaining = sub_word p.remaining 1
          if remaining == 0
              then ret (
                record p { args = []; remaining = remaining; state = array_len },
                buf',
                done (ok (some args)),
              )
              else ret
                  (record p { args = args; remaining = remaining; state = bulk_len }, buf', go_on)))

  unfoldable pub round : RespParser → Buf → Outcome (RespParser × Buf × Round)
  round p buf = elim p.state [
    | array_len ↦ on_array_len p buf
    | bulk_len ↦ on_bulk_len p buf
    | bulk_data ↦ on_bulk_data p buf
  ]

  -- the loop of `parse`, for `fuel` rounds at most
  unfoldable pub parse :
      ℕ → RespParser → Buf → Outcome (RespParser × Buf × Parsed (Option (List Bytes)))
  parse zero p buf = panic
  parse (suc fuel) p buf = do
    (p', buf', verdict) ← round p buf
    elim verdict [ go_on ↦ parse fuel p' buf' | done result ↦ ret (p', buf', result) ]
