-- ===== src/Server/Requests.antt =====
-- A connection with two commands, on an engine that can hold one key.
use hybird_kv.Prelude.{
  ◌≡◌, refl, sym, ap, Bool, true, false, [], ◌∷◌, ◌++◌, Bytes, bytes, bytes_eq, ret, List, arith,
  none,
}
use hybird_kv.Prelude.Int.{pos}
use hybird_kv.Wire.Decimal.{push_usize, digits_from}
use hybird_kv.Wire.Encode.{encode_args, encode_command}
use hybird_kv.Wire.Tests.{as_bytes}
use hybird_kv.Wire.Parser.{start}
use hybird_kv.Server.Metrics.{with_latency_buckets}
use hybird_kv.Server.Tally.{new_metrics-Tallies}
use hybird_kv.Server.Commands.{
  dispatch_command, eq_ignore_ascii_case, to_lower, handle_get, get_reply, bulk, integer,
  handle_del, delete_all, on_delete,
}
use hybird_kv.Server.Respond.{resp, resp_bulk, resp_integer, to_string}
use hybird_kv.Server.Replies.{one_key}
use hybird_kv.Server.Session.{Host, Session, drain}
use hybird_kv.Server.Pipeline.{
  Answers, no_more, answer, Encoded, nothing, command, Counted, Drained, drain-Drained,
}

-- A socket that takes every response, in a list.
instance sending : Host (List Bytes)
sending = record {
  write_all = λ response w. (w ++ response ∷ [], true);
  elapsed = λ w. (w, 7);
  now = λ w. (w, λ i. i);
  sent = λ w. w;
  write_all-sent = λ response w w' e. ap (λ t. t.0) (sym e);
  elapsed-sent = λ w. refl;
  now-sent = λ w. refl;
}

abbrev get_k : List Bytes
get_k = bytes "GET" ∷ bytes "k" ∷ []

abbrev del_k : List Bytes
del_k = bytes "DEL" ∷ bytes "k" ∷ []

program : Unit {0}
unfolding encode_command encode_args push_usize digits_from
program = tt

get_encoded : encode_command get_k [] ≡ ret (bytes "*2\r\n$3\r\nGET\r\n$1\r\nk\r\n")
unfolding program
get_encoded = refl

del_encoded : encode_command del_k [] ≡ ret (bytes "*2\r\n$3\r\nDEL\r\n$1\r\nk\r\n")
unfolding program
del_encoded = refl

both_encoded :
    Encoded 5
      (get_k ∷ del_k ∷ [])
      (bytes "*2\r\n$3\r\nGET\r\n$1\r\nk\r\n*2\r\n$3\r\nDEL\r\n$1\r\nk\r\n")
both_encoded =
    command (bytes "GET") (bytes "k" ∷ []) _ _ _ (omega arith, (omega arith, tt)) (omega arith)
      (omega arith) get_encoded
      (command (bytes "DEL") (bytes "k" ∷ []) _ [] [] (omega arith, (omega arith, tt)) (omega arith)
        (omega arith) del_encoded nothing)

both_answered : Answers (get_k ∷ del_k ∷ []) true false (bytes "$1\r\nv\r\n" ∷ bytes ":1\r\n" ∷ [])
unfolding program one_key bytes_eq dispatch_command eq_ignore_ascii_case to_lower handle_get
    get_reply handle_del delete_all on_delete resp resp_bulk resp_integer to_string
both_answered =
    answer get_k (del_k ∷ []) true true false (bulk (bytes "v")) _ _ (λ info. refl) refl
      (answer del_k [] true false false (integer (pos 1)) _ _ (λ info. refl) refl (no_more false))

abbrev session : Session Bytes Bool (List Bytes)
session = record {
  parser = start;
  buffer = bytes "*2\r\n$3\r\nGET\r\n$1\r\nk\r\n*2\r\n$3\r\nDEL\r\n$1\r\nk\r\n";
  engine = true;
  metrics = with_latency_buckets (10 ∷ []);
  log = none;
  world = [];
}

nothing-Counted : Counted (10 ∷ []) 0 0 (with_latency_buckets (10 ∷ []))
nothing-Counted = ([], new_metrics-Tallies (10 ∷ []), refl, refl)

drain-Drained_example :
    Drained
      (10 ∷ [])
      0
      0
      2
      false
      (bytes "$1\r\nv\r\n" ∷ bytes ":1\r\n" ∷ [])
      session
      (drain (λ metrics. []) 5 3 session)
unfolding as_bytes sending
drain-Drained_example =
    drain-Drained (10 ∷ []) (λ metrics. []) 5 3 0 0 (get_k ∷ del_k ∷ []) session.buffer session
      false (bytes "$1\r\nv\r\n" ∷ bytes ":1\r\n" ∷ []) (λ response w. refl) both_encoded
      both_answered (omega arith) (omega arith) refl refl nothing-Counted
