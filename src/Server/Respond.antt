-- ===== src/Server/Respond.antt =====
-- hkv-server/src/server.rs: the bytes of a reply, by the `resp_*` functions. The decimal digits
-- that `to_string` gives are those of `push_usize`.
use hybird_kv.Prelude.{◌+◌, [], ◌∷◌, ◌++◌, Bytes, bytes, Outcome, ret, ◌>>=◌, length}
use hybird_kv.Prelude.Int.{ℤ, pos, negsuc}
use hybird_kv.Wire.Decimal.{push_usize}
use hybird_kv.Server.Commands.{Reply, simple, error, integer, bulk, null}

unfoldable pub resp_simple : Bytes → Bytes
resp_simple message = (43 ∷ message) ++ 13 ∷ 10 ∷ []

unfoldable pub resp_error : Bytes → Bytes
resp_error message = (45 ∷ bytes "ERR " ++ message) ++ 13 ∷ 10 ∷ []

unfoldable pub to_string : ℤ → Bytes → Outcome Bytes
to_string (pos n) out = push_usize out n
to_string (negsuc n) out = push_usize (out ++ 45 ∷ []) (n + 1)

unfoldable pub resp_integer : ℤ → Outcome Bytes
unfolding to_string
resp_integer value = do out ← to_string value (58 ∷ []); ret (out ++ 13 ∷ 10 ∷ [])

unfoldable pub resp_bulk : Bytes → Outcome Bytes
unfolding to_string
resp_bulk payload = do
  out ← to_string (pos (length payload)) (36 ∷ [])
  ret ((out ++ 13 ∷ 10 ∷ []) ++ payload ++ 13 ∷ 10 ∷ [])

abbrev pub resp_null : Bytes
resp_null = (36 ∷ 45 ∷ 49 ∷ []) ++ 13 ∷ 10 ∷ []

unfoldable pub resp : Reply → Outcome Bytes
resp (simple message) = ret (resp_simple message)
resp (error message) = ret (resp_error message)
resp (integer value) = resp_integer value
resp (bulk payload) = resp_bulk payload
resp null = ret resp_null
