-- ===== src/Client/Frames.antt =====
-- The replies of hkv-server/src/server.rs as the reader of hkv-client/src/resp.rs sees them: a
-- line, and for a bulk string its data.
use hybird_kv.Prelude.{
  ℕ, suc, Bool, true, false, ◌&&◌, leb, ◌+◌, ◌-◌, ◌≤◌, ◌<◌, ◌≢◌, ◌≡◌, refl, ◌∙◌, ap, [], ◌∷◌, ◌++◌,
  append_assoc, Bytes, bytes, Option, some, ret, arith, length, length-append, get_or, take, ltb,
  ◌==◌,
}
use hybird_kv.Prelude.Int.{ℤ, pos, negsuc}
use hybird_kv.Wire.Decimal.{ok, Digits, parse_digits, push_usize, push_usize-Digits}
use hybird_kv.Wire.Lines.{take_front}
use hybird_kv.Client.Error.{ErrorKind}
use hybird_kv.Client.Error
use hybird_kv.Client.Response.{until_lf, finish_line, read_line, i64_max, parse_i64}
use hybird_kv.Server.Commands.{Reply, simple, error, integer, bulk, null}
use hybird_kv.Server.Respond.{resp, resp_simple, resp_error, resp_integer, resp_bulk, to_string}

-- Bytes with no carriage return and no line feed.
abbrev pub NoLineEnd : Bytes → Type 0
NoLineEnd [] = Unit
NoLineEnd (b ∷ bs) = ((b ≢ 13) × (b ≢ 10)) × NoLineEnd bs

NoLineEnd-cons : (b : ℕ) (bs : Bytes) → 14 ≤ b → NoLineEnd bs → NoLineEnd (b ∷ bs)
NoLineEnd-cons b bs h k = ((λ e. omega (arith, e, h), λ e. omega (arith, e, h)), k)

unfoldable visible : Bytes → Bool
visible [] = true
visible (b ∷ bs) = leb 14 b && visible bs

NoLineEnd-append : (xs ys : Bytes) → visible xs ≡ true → NoLineEnd ys → NoLineEnd (xs ++ ys)
unfolding visible
NoLineEnd-append [] ys v h = h
NoLineEnd-append (x ∷ xs) ys v h =
    NoLineEnd-cons x (xs ++ ys) (ground (arith, v)) (NoLineEnd-append xs ys (ground (arith, v)) h)

Digits-NoLineEnd : (bs : Bytes) → Digits bs → NoLineEnd bs
Digits-NoLineEnd [] h = tt
Digits-NoLineEnd (b ∷ bs) h = NoLineEnd-cons b bs (omega (arith, h.0)) (Digits-NoLineEnd bs h.1)

-- A reply that the wire can carry and the client reads: the text of a line has no line end, an
-- integer fits 64 bits with its sign and is not -2^63, and a length is at most 2^63-1.
abbrev pub Plain : Reply → Type 0
Plain (simple message) = NoLineEnd message
Plain (error message) = NoLineEnd message
Plain (integer (pos n)) = n ≤ i64_max
Plain (integer (negsuc n)) = n < i64_max
Plain (bulk payload) = length payload ≤ i64_max
Plain null = Unit

-- The line of a reply, and what follows its line end.
pub data Frame : Reply → Bytes → Bytes → Type 0 where
  of_simple : (message : Bytes) → Frame (simple message) (43 ∷ message) []
  of_error : (message : Bytes) → Frame (error message) (45 ∷ bytes "ERR " ++ message) []
  of_integer : (n : ℤ) (ds : Bytes) → parse_i64 ds ≡ ok n → Frame (integer n) (58 ∷ ds) []
  of_bulk :
      (payload ds : Bytes)
      → parse_i64 ds ≡ ok (pos (length payload))
      → Frame (bulk payload) (36 ∷ ds) (payload ++ 13 ∷ 10 ∷ [])
  of_null : Frame null (36 ∷ 45 ∷ 49 ∷ []) []

pub record Framed (r : Reply) (bytes : Bytes) : Type 0 where
  pub line : Bytes
  pub tail : Bytes
  pub split : bytes ≡ line ++ 13 ∷ 10 ∷ tail
  pub one_line : NoLineEnd line
  pub frame : Frame r line tail

parse_i64-pos :
    (ds : Bytes) (n : ℕ)
    → Digits ds
    → ds ≢ []
    → parse_digits i64_max 0 ds ≡ ok n
    → parse_i64 ds ≡ ok (pos n)
unfolding parse_i64
parse_i64-pos [] n d ne h = absurd (ne refl)
parse_i64-pos (b ∷ ds) n d ne h = ground (arith, h, d.0)

parse_i64-negsuc :
    (ds : Bytes) (n : ℕ)
    → parse_digits i64_max 0 ds ≡ ok (suc n)
    → parse_i64 (45 ∷ ds) ≡ ok (negsuc n)
unfolding parse_i64
parse_i64-negsuc ds n h = rw h

-- `to_string` of an integer of 64 bits writes one line, which `parse_i64` reads back.
to_string-parse_i64 :
    (n : ℤ) (out : Bytes)
    → Plain (integer n)
    → (ds : Bytes) × (to_string n out ≡ ret (out ++ ds)) × NoLineEnd ds × (parse_i64 ds ≡ ok n)
unfolding to_string
to_string-parse_i64 (pos n) out h =
    let (ds, r, d, ne, p) = push_usize-Digits i64_max out n (omega arith) h in
    (ds, r, Digits-NoLineEnd ds d, parse_i64-pos ds n d ne p)
to_string-parse_i64 (negsuc n) out h =
    let e : n + 1 ≡ suc n = omega arith in
    let (ds, r, d, ne, p) =
      push_usize-Digits i64_max (out ++ 45 ∷ []) (suc n) (omega arith) (omega arith) in
    (
      45 ∷ ds,
      ap (push_usize (out ++ 45 ∷ [])) e ∙ r ∙ ap ret (append_assoc out (45 ∷ []) ds),
      NoLineEnd-cons 45 ds (omega arith) (Digits-NoLineEnd ds d),
      parse_i64-negsuc ds n p,
    )

-- The server writes a plain reply without a panic, as a line and its data.
pub resp-Framed : (r : Reply) → Plain r → (bytes : Bytes) × (resp r ≡ ret bytes) × Framed r bytes
unfolding visible resp resp_simple resp_error resp_integer resp_bulk
resp-Framed (simple message) h = (
  _,
  refl,
  record {
    line = 43 ∷ message;
    tail = [];
    split = refl;
    one_line = NoLineEnd-cons 43 message (omega arith) h;
    frame = of_simple message;
  },
)
resp-Framed (error message) h = (
  _,
  refl,
  record {
    line = 45 ∷ bytes "ERR " ++ message;
    tail = [];
    split = refl;
    one_line = NoLineEnd-append (45 ∷ bytes "ERR ") message refl h;
    frame = of_error message;
  },
)
resp-Framed (integer n) h =
    let (ds, r, one, p) = to_string-parse_i64 n (58 ∷ []) h in
    (
      (58 ∷ ds) ++ 13 ∷ 10 ∷ [],
      rw r refl,
      record {
        line = 58 ∷ ds;
        tail = [];
        split = refl;
        one_line = NoLineEnd-cons 58 ds (omega arith) one;
        frame = of_integer n ds p;
      },
    )
resp-Framed (bulk payload) h =
    let (ds, r, one, p) = to_string-parse_i64 (pos (length payload)) (36 ∷ []) h in
    (
      ((36 ∷ ds) ++ 13 ∷ 10 ∷ []) ++ payload ++ 13 ∷ 10 ∷ [],
      rw r refl,
      record {
        line = 36 ∷ ds;
        tail = payload ++ 13 ∷ 10 ∷ [];
        split = simp append_assoc;
        one_line = NoLineEnd-cons 36 ds (omega arith) one;
        frame = of_bulk payload ds p;
      },
    )
resp-Framed null h = (
  _,
  refl,
  record {
    line = 36 ∷ 45 ∷ 49 ∷ [];
    tail = [];
    split = refl;
    one_line = NoLineEnd-append (36 ∷ 45 ∷ 49 ∷ []) [] refl tt;
    frame = of_null;
  },
)

until_lf-line :
    (line rest : Bytes)
    → NoLineEnd line
    → until_lf (line ++ 13 ∷ 10 ∷ rest) ≡ some (line ++ 13 ∷ 10 ∷ [], rest)
unfolding until_lf
until_lf-line [] rest h = refl
until_lf-line (x ∷ line) rest h = ground (arith, until_lf-line line rest h.1, h.0.1)

get_or-front : (xs : Bytes) (y : ℕ) (ys : Bytes) → get_or (xs ++ y ∷ ys) (length xs) 0 ≡ y
get_or-front [] y ys = refl
get_or-front (x ∷ xs) y ys = get_or-front xs y ys

finish_line-line :
    (line : Bytes) (input : Bytes) (failure : Option ErrorKind)
    → finish_line (record { input = input; failure = failure; line_buf = line ++ 13 ∷ 10 ∷ [] })
      ≡ (record { input = input; failure = failure; line_buf = line }, Error.ok tt)
unfolding finish_line
finish_line-line line input failure =
    let n : length (line ++ 13 ∷ 10 ∷ []) ≡ length line + 2 = length-append line (13 ∷ 10 ∷ []) in
    let k : length (line ++ 13 ∷ 10 ∷ []) - 2 ≡ length line = omega (arith, n) in
    let z : (length (line ++ 13 ∷ 10 ∷ []) == 0) ≡ false = ground (arith, n) in
    let l : ltb (length (line ++ 13 ∷ 10 ∷ [])) 2 ≡ false = ground (arith, n) in
    let b : (get_or (line ++ 13 ∷ 10 ∷ []) (length (line ++ 13 ∷ 10 ∷ []) - 2) 0 == 13) ≡ true =
      ap (λ i. get_or (line ++ 13 ∷ 10 ∷ []) i 0 == 13) k
      ∙ ap (λ y. y == 13) (get_or-front line 13 (10 ∷ [])) in
    let t : take (length (line ++ 13 ∷ 10 ∷ []) - 2) (line ++ 13 ∷ 10 ∷ []) ≡ line =
      ap (λ i. take i (line ++ 13 ∷ 10 ∷ [])) k ∙ take_front line (13 ∷ 10 ∷ []) in
    rw (z, finish_line) (rw l (rw b (rw t refl)))

-- `read_line` takes a line and its line end from the stream, and leaves the line in the buffer.
pub read_line-line :
    (line rest : Bytes) (failure : Option ErrorKind) (before : Bytes)
    → NoLineEnd line
    → read_line (record { input = line ++ 13 ∷ 10 ∷ rest; failure = failure; line_buf = before })
      ≡ (record { input = rest; failure = failure; line_buf = line }, Error.ok tt)
unfolding read_line
read_line-line line rest failure before h =
    rw (until_lf-line line rest h, read_line) (finish_line-line line rest failure)
