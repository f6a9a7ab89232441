-- ===== src/Wire/Tests.antt =====
-- Concrete commands on the wire.
use hybird_kv.Prelude.{
  ℕ, ◌≤◌, ◌≡◌, refl, false, ap, some, List, [], ◌∷◌, ◌++◌, arith, Bytes, bytes, Outcome, ret, panic,
  length, take, drop, ltb, if◌then◌else◌,
}
use hybird_kv.Wire.Decimal.{ok, push_usize, digits_from}
use hybird_kv.Wire.Buffer.{BytesMut}
use hybird_kv.Wire.Encode.{encode_args, encode_command}
use hybird_kv.Wire.Encoded.{encode_command-ret}
use hybird_kv.Wire.Parser.{RespParser, array_len, start, parse}
use hybird_kv.Wire.Exchange.{encode_command-parse}

pub leb_front : (n : ℕ) (xs : Bytes) → n ≤ length xs → ltb (length xs) n ≡ false
leb_front n xs h = ground arith

abbrev pub get_u8_of : Bytes → Outcome (Bytes × ℕ)
get_u8_of [] = panic
get_u8_of (x ∷ xs) = ret (xs, x)

-- A buffer that is its contents.
instance unfoldable pub as_bytes : BytesMut Bytes
as_bytes = record {
  contents = λ b. b;
  split_to = λ n b. if ltb (length b) n then panic else ret (take n b, drop n b);
  advance = λ n b. if ltb (length b) n then panic else ret (drop n b);
  get_u8 = get_u8_of;
  split_to-ret = λ n b h. (take n b, drop n b, rw (leb_front n b h), refl, refl);
  advance-ret = λ n b h. (drop n b, rw (leb_front n b h), refl);
  get_u8-ret = λ b x xs h. (xs, ap get_u8_of h, refl);
}

abbrev command : List Bytes
command = bytes "SET" ∷ bytes "k" ∷ bytes "" ∷ []

abbrev encoded : Bytes
encoded = bytes "*3\r\n$3\r\nSET\r\n$1\r\nk\r\n$0\r\n\r\n"

program : Unit {0}
unfolding encode_command encode_args push_usize digits_from
program = tt

run_encode : encode_command command [] ≡ ret encoded
unfolding program
run_encode = refl

encode_command-ret_example : (bs : Bytes) × (encode_command command (7 ∷ []) ≡ ret ((7 ∷ []) ++ bs))
encode_command-ret_example =
    encode_command-ret command (7 ∷ []) (omega arith, (omega arith, (omega arith, tt)))
      (omega arith)

-- a whole command, with the start of the next one behind it
encode_command-parse_example :
    (p' : RespParser) × (buf' : Bytes) × (parse 7 start (encoded ++ bytes "*1")
      ≡ ret (p', buf', ok (some command)))
    × (p'.state ≡ array_len)
    × (buf' ≡ bytes "*1")
unfolding as_bytes
encode_command-parse_example =
    encode_command-parse (bytes "SET") (bytes "k" ∷ bytes "" ∷ []) encoded (bytes "*1") 7 start
      (encoded ++ bytes "*1") (omega arith, (omega arith, (omega arith, tt))) (omega arith)
      (omega arith) run_encode refl refl
