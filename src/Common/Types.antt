-- ===== src/Common/Types.antt =====
-- hkv-common/src/types.rs: keys and values in fixed buffers, versions and deadlines.
use hybird_kv.Prelude.{
  ℕ, ◌-◌, ◌%◌, ◌^◌, ◌&&◌, not, Bool, ◌++◌, Bytes, bytes_eq, Outcome, ret, panic, ◌>>=◌, length,
  take, drop, replicate, leb, ltb, ◌==◌, if◌then◌else◌,
}
use hybird_kv.Engine.Word.{word, add_word}
use hybird_kv.Common.Error.{HkvError, key_too_long, value_too_long}

-- `HkvResult`
pub data HkvResult (A : Type 0) : Type 0 where
  ok : A → HkvResult A
  err : HkvError → HkvResult A

abbrev pub max_key_size : ℕ
max_key_size = 256

abbrev pub max_value_size : ℕ
max_value_size = 1024

pub record Key : Type 0 where
  pub len : ℕ
  pub bytes_buf : Bytes

pub record Value : Type 0 where
  pub len : ℕ
  pub bytes_buf : Bytes

-- `buf[..input.len()].copy_from_slice(input)` for a slice that fits
unfoldable pub copied : Bytes → Bytes → Bytes
copied input buf = input ++ drop (length input) buf

-- `&buf[..len]`
unfoldable pub front : ℕ → Bytes → Outcome Bytes
front len buf = if leb len (length buf) then ret (take len buf) else panic

-- `Key::new`: the length is cast to 16 bits
unfoldable pub new_key : Bytes → HkvResult Key
new_key input =
    if ltb max_key_size (length input)
    then err key_too_long
    else ok (record {
      len = length input % 2 ^ 16;
      bytes_buf = copied input (replicate max_key_size 0);
    })

unfoldable pub key_bytes : Key → Outcome Bytes
key_bytes k = front k.len k.bytes_buf

-- `PartialEq for Key`
unfoldable pub key_eq : Key → Key → Outcome Bool
key_eq a b = do xs ← key_bytes a; ys ← key_bytes b; ret (a.len == b.len && bytes_eq xs ys)

-- `Value::new`
unfoldable pub new_value : Bytes → HkvResult Value
new_value input =
    if ltb max_value_size (length input)
    then err value_too_long
    else ok (record {
      len = length input % 2 ^ 16;
      bytes_buf = copied input (replicate max_value_size 0);
    })

unfoldable pub value_bytes : Value → Outcome Bytes
value_bytes v = front v.len v.bytes_buf

-- `PartialEq for Value`
unfoldable pub value_eq : Value → Value → Outcome Bool
value_eq a b = do xs ← value_bytes a; ys ← value_bytes b; ret (a.len == b.len && bytes_eq xs ys)

-- `Version::next`
unfoldable pub next_version : ℕ → ℕ
next_version v = add_word v 1

-- `Version::increment`: the new value of the version, and the result
unfoldable pub increment : ℕ → ℕ × ℕ
increment v = (add_word v 1, add_word v 1)

-- `Ttl::is_infinite`, of the number that a `Ttl` wraps
unfoldable pub is_infinite : ℕ → Bool
is_infinite ttl = ttl == word - 1

-- `Ttl::is_expired`
unfoldable pub ttl_is_expired : ℕ → ℕ → Bool
unfolding is_infinite
ttl_is_expired ttl current_nanos = not (is_infinite ttl) && leb ttl current_nanos
