-- ===== src/Wire/Encode.antt =====
-- hkv-client/src/resp.rs: `encode_command`.
use hybird_kv.Prelude.{List, [], ◌∷◌, ◌++◌, Bytes, Outcome, ret, ◌>>=◌, length}
use hybird_kv.Wire.Decimal.{push_usize}

-- the `for arg in args` loop
unfoldable pub encode_args : List Bytes → Bytes → Outcome Bytes
encode_args [] out = ret out
encode_args (arg ∷ args) out = do
  out' ← push_usize (out ++ 36 ∷ []) (length arg)
  encode_args args (out' ++ (13 ∷ 10 ∷ arg ++ 13 ∷ 10 ∷ []))

unfoldable pub encode_command : List Bytes → Bytes → Outcome Bytes
encode_command args out = do
  out' ← push_usize (out ++ 42 ∷ []) (length args)
  encode_args args (out' ++ 13 ∷ 10 ∷ [])
