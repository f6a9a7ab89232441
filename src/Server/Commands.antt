-- ===== src/Server/Commands.antt =====
-- hkv-server/src/server.rs: the dispatch of a command to the engine, and its reply, which is the
-- value that the `resp_*` functions write. The text of INFO is an argument, and the events that are
-- recorded are in `Observe`.
use hybird_kv.Prelude.{
  ℕ, ◌+◌, ◌*◌, ◌/◌, ◌&&◌, Bool, true, false, Option, none, some, List, [], ◌∷◌, Bytes, bytes,
  Outcome, ret, ◌>>=◌, leb, ltb, ◌-◌, ◌^◌, ◌==◌, if◌then◌else◌,
}
use hybird_kv.Prelude.Int.{ℤ, pos, negsuc}
use hybird_kv.Common.Error.{not_found}
use hybird_kv.Common.Types.{HkvResult, ok, err}
use hybird_kv.Wire.Decimal.{Parsed, protocol, parse_usize}
use hybird_kv.Wire.Decimal
use hybird_kv.Engine.Memory.{TtlStatus, missing, no_expiry, expires_in}

-- hkv-engine/src/engine.rs: `KVEngine`, with durations in nanoseconds
pub record KvEngine (E : Type 0) : Type 0 where
  pub get : Bytes → E → Outcome (E × HkvResult (Option Bytes))
  pub set : Bytes → Bytes → E → Outcome (E × HkvResult Unit)
  pub set_with_ttl : Bytes → Bytes → ℕ → E → Outcome (E × HkvResult Unit)
  pub delete : Bytes → E → Outcome (E × HkvResult Bool)
  pub expire : Bytes → ℕ → E → Outcome (E × HkvResult Unit)
  pub ttl : Bytes → E → Outcome (E × HkvResult TtlStatus)

pub data Reply : Type 0 where
  simple error : Bytes → Reply
  integer : ℤ → Reply
  bulk : Bytes → Reply
  null : Reply

-- `u8::to_ascii_lowercase`, by which `eq_ignore_ascii_case` compares
unfoldable pub to_lower : ℕ → ℕ
to_lower b = if leb 65 b && leb b 90 then b + 32 else b

unfoldable pub eq_ignore_ascii_case : Bytes → Bytes → Bool
eq_ignore_ascii_case [] [] = true
eq_ignore_ascii_case (x ∷ xs) (y ∷ ys) = to_lower x == to_lower y && eq_ignore_ascii_case xs ys
eq_ignore_ascii_case _ _ = false

-- `Duration::from_secs`
abbrev pub nanos : ℕ → ℕ
nanos seconds = seconds * 1000000000

unfoldable pub handle_ping : List Bytes → Reply
handle_ping (cmd ∷ []) = simple (bytes "PONG")
handle_ping (cmd ∷ message ∷ []) = bulk message
handle_ping _ = error (bytes "wrong number of arguments for PING")

unfoldable pub ok_or_error : HkvResult Unit → Reply
ok_or_error (ok _) = simple (bytes "OK")
ok_or_error (err _) = error (bytes "engine error")

unfoldable pub get_reply : HkvResult (Option Bytes) → Reply
get_reply (ok (some value)) = bulk value
get_reply (ok none) = null
get_reply (err _) = error (bytes "engine error")

unfoldable pub expire_reply : HkvResult Unit → Reply
expire_reply (ok _) = integer (pos 1)
expire_reply (err not_found) = integer (pos 0)
expire_reply (err _) = error (bytes "engine error")

-- `as i64`, of a number of 64 bits
unfoldable pub as_i64 : ℕ → ℤ
as_i64 n = if ltb n (2 ^ 63) then pos n else negsuc (2 ^ 64 - 1 - n)

unfoldable pub ttl_reply : HkvResult TtlStatus → Reply
unfolding as_i64
ttl_reply (ok missing) = integer (negsuc 1)
ttl_reply (ok no_expiry) = integer (negsuc 0)
ttl_reply (ok (expires_in remaining)) = integer (as_i64 (remaining / 1000000000))
ttl_reply (err _) = error (bytes "engine error")

module _ {E : Type 0} ⦃m : KvEngine E⦄ where
  unfoldable pub handle_get : List Bytes → E → Outcome (E × Reply)
  unfolding get_reply
  handle_get (cmd ∷ key ∷ []) e = do (e', result) ← m.get key e; ret (e', get_reply result)
  handle_get _ e = ret (e, error (bytes "wrong number of arguments for GET"))

  unfoldable pub handle_set : List Bytes → E → Outcome (E × Reply)
  unfolding ok_or_error
  handle_set (cmd ∷ key ∷ value ∷ []) e = do
    (e', result) ← m.set key value e
    ret (e', ok_or_error result)
  handle_set (cmd ∷ key ∷ value ∷ option ∷ seconds ∷ []) e =
      if eq_ignore_ascii_case option (bytes "EX")
      then elim (parse_usize seconds) [
        | Decimal.protocol ↦ ret (e, error (bytes "invalid integer"))
        | Decimal.ok n ↦ do
          (e', result) ← m.set_with_ttl key value (nanos n) e
          ret (e', ok_or_error result)
      ]
      else ret (e, error (bytes "unsupported SET options"))
  handle_set (cmd ∷ key ∷ value ∷ _) e = ret (e, error (bytes "unsupported SET options"))
  handle_set _ e = ret (e, error (bytes "wrong number of arguments for SET"))

  -- a round of the loop of `handle_del`, with `again` for the rest of it
  unfoldable pub on_delete :
      (ℕ → E → Outcome (E × Reply)) → ℕ → E × HkvResult Bool → Outcome (E × Reply)
  on_delete again removed (e, ok true) = again (removed + 1) e
  on_delete again removed (e, ok false) = again removed e
  on_delete again removed (e, err _) = ret (e, error (bytes "engine error"))

  -- the loop of `handle_del`, with `removed` keys so far
  unfoldable pub delete_all : List Bytes → ℕ → E → Outcome (E × Reply)
  unfolding on_delete
  delete_all [] removed e = ret (e, integer (pos removed))
  delete_all (key ∷ keys) removed e = do
    deleted ← m.delete key e
    on_delete (delete_all keys) removed deleted

  unfoldable pub handle_del : List Bytes → E → Outcome (E × Reply)
  handle_del (cmd ∷ key ∷ keys) e = delete_all (key ∷ keys) 0 e
  handle_del _ e = ret (e, error (bytes "wrong number of arguments for DEL"))

  unfoldable pub handle_expire : List Bytes → E → Outcome (E × Reply)
  unfolding expire_reply
  handle_expire (cmd ∷ key ∷ seconds ∷ []) e = elim (parse_usize seconds) [
    | Decimal.protocol ↦ ret (e, error (bytes "invalid integer"))
    | Decimal.ok n ↦ do (e', result) ← m.expire key (nanos n) e; ret (e', expire_reply result)
  ]
  handle_expire _ e = ret (e, error (bytes "wrong number of arguments for EXPIRE"))

  unfoldable pub handle_ttl : List Bytes → E → Outcome (E × Reply)
  unfolding ttl_reply
  handle_ttl (cmd ∷ key ∷ []) e = do (e', result) ← m.ttl key e; ret (e', ttl_reply result)
  handle_ttl _ e = ret (e, error (bytes "wrong number of arguments for TTL"))

  unfoldable pub dispatch_command : Bytes → List Bytes → E → Outcome (E × Reply)
  dispatch_command info [] e = ret (e, error (bytes "empty command"))
  dispatch_command info (cmd ∷ args) e =
      if eq_ignore_ascii_case cmd (bytes "PING")
      then ret (e, handle_ping (cmd ∷ args))
      else if eq_ignore_ascii_case cmd (bytes "GET")
      then handle_get (cmd ∷ args) e
      else if eq_ignore_ascii_case cmd (bytes "SET")
      then handle_set (cmd ∷ args) e
      else if eq_ignore_ascii_case cmd (bytes "DEL")
      then handle_del (cmd ∷ args) e
      else if eq_ignore_ascii_case cmd (bytes "EXPIRE")
      then handle_expire (cmd ∷ args) e
      else if eq_ignore_ascii_case cmd (bytes "TTL")
      then handle_ttl (cmd ∷ args) e
      else if eq_ignore_ascii_case cmd (bytes "INFO")
      then ret (e, bulk info)
      else ret (e, error (bytes "unknown command"))
