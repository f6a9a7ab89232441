-- ===== src/Server/Replies.antt =====
-- Commands on a small engine: one that can hold one key.
use hybird_kv.Prelude.{
  ◌≡◌, refl, Bool, true, false, ◌&&◌, none, some, [], ◌∷◌, Bytes, bytes, bytes_eq, ret,
  if◌then◌else◌,
}
use hybird_kv.Prelude.Int.{pos}
use hybird_kv.Common.Types.{ok, err}
use hybird_kv.Common.Error.{not_found}
use hybird_kv.Engine.Memory.{missing, no_expiry}
use hybird_kv.Server.Commands.{
  KvEngine, integer, eq_ignore_ascii_case, handle_del, dispatch_command, to_lower,
}
use hybird_kv.Server.Dispatch.{
  dispatch_command_case, Deletes, all_deleted, one_deleted, handle_del-Deletes,
}

abbrev the_key : Bytes
the_key = bytes "k"

-- The state tells whether the key is there. Its value is always the same.
instance unfoldable pub one_key : KvEngine Bool
one_key = record {
  get = λ k e. ret (e, ok (if bytes_eq k the_key && e then some (bytes "v") else none));
  set = λ k v e. ret (if bytes_eq k the_key then true else e, ok tt);
  set_with_ttl = λ k v d e. ret (if bytes_eq k the_key then true else e, ok tt);
  delete = λ k e. ret (if bytes_eq k the_key then false else e, ok (bytes_eq k the_key && e));
  expire = λ k d e. ret (e, if bytes_eq k the_key && e then ok tt else err not_found);
  ttl = λ k e. ret (e, ok (if bytes_eq k the_key && e then no_expiry else missing));
}

dispatch_command_case_example :
    dispatch_command (bytes "") (bytes "gEt" ∷ the_key ∷ []) true
    ≡ dispatch_command (bytes "") (bytes "GET" ∷ the_key ∷ []) true
unfolding eq_ignore_ascii_case to_lower
dispatch_command_case_example =
    dispatch_command_case (bytes "") (bytes "gEt") (bytes "GET") (the_key ∷ []) true refl

three_deleted : Deletes (the_key ∷ bytes "x" ∷ the_key ∷ []) true false 1
unfolding one_key bytes_eq
three_deleted = one_deleted the_key _ true false false true 0 refl (
    one_deleted (bytes "x") _ false false false false 0 refl
      (one_deleted the_key _ false false false false 0 refl (all_deleted false)))

handle_del-Deletes_example :
    handle_del (bytes "DEL" ∷ the_key ∷ bytes "x" ∷ the_key ∷ []) true
    ≡ ret (false, integer (pos 1))
handle_del-Deletes_example =
    handle_del-Deletes (bytes "DEL") the_key (bytes "x" ∷ the_key ∷ []) true false 1 three_deleted
