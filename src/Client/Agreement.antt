-- ===== src/Client/Agreement.antt =====
-- The commands of hkv-client/src/client.rs against the handlers of hkv-server/src/server.rs: what
-- the client makes of the reply to a command is what the engine answered.
use hybird_kv.Prelude.{
  ℕ, ◌*◌, ◌/◌, ◌^◌, ◌<◌, ◌≡◌, refl, sym, subst, ◌∙◌, ap, Bool, true, false, Option, none, some, [],
  ◌∷◌, Bytes, bytes, Outcome, ret, panic, ◌>>=◌, arith,
}
use hybird_kv.Prelude.Int.{pos}
use hybird_kv.Engine.Word.{word}
use hybird_kv.Engine.Memory.{TtlStatus}
use hybird_kv.Engine.Memory
use hybird_kv.Common.Error.{not_found}
use hybird_kv.Common.Types.{HkvResult}
use hybird_kv.Common.Types
use hybird_kv.Wire.Decimal
use hybird_kv.Wire.Decimal.{push_usize, parse_usize, push_usize-parse_usize}
use hybird_kv.Wire.Encoded.{same_result}
use hybird_kv.Client.Error.{ClientResult, ok, err, server}
use hybird_kv.Client.Response.{RespValue}
use hybird_kv.Client.Api.{
  ClientTtl, missing, no_expiry, expires_in, encode_u64, get_result, set_result, delete_result,
  expire_result, ttl_result, positive, is_one,
}
use hybird_kv.Client.Answers.{value_of}
use hybird_kv.Server.Commands.{
  KvEngine, Reply, to_lower, eq_ignore_ascii_case, nanos, get_reply, ok_or_error, on_delete,
  expire_reply, as_i64, ttl_reply, handle_get, handle_set, delete_all, handle_del, handle_expire,
  handle_ttl, dispatch_command,
}

-- What a client is to get for a result of the engine: the value, or the server's error.
abbrev pub reported : {A : Type 0} → HkvResult A → ClientResult A
reported (Types.ok a) = ok a
reported (Types.err _) = err (server (bytes "ERR engine error"))

-- `EXPIRE` tells a missing key by its reply.
abbrev pub applied : HkvResult Unit → ClientResult Bool
applied (Types.ok _) = ok true
applied (Types.err not_found) = ok false
applied (Types.err _) = err (server (bytes "ERR engine error"))

-- A time to live in whole seconds.
abbrev pub in_seconds : HkvResult TtlStatus → ClientResult ClientTtl
in_seconds (Types.ok Memory.missing) = ok missing
in_seconds (Types.ok Memory.no_expiry) = ok no_expiry
in_seconds (Types.ok (Memory.expires_in remaining)) =
    ok (expires_in (remaining / 1000000000 * 1000000000))
in_seconds (Types.err _) = err (server (bytes "ERR engine error"))

>>=-report :
    {E R B C : Type 0} (run : Outcome (E × R)) (f : E × R → Outcome C) (g : C → Outcome (E × B))
    (report : R → B)
    → ((e : E) (r : R) → (f (e, r) >>= g) ≡ ret (e, report r))
    → (run >>= f >>= g) ≡ (run >>= (λ (e, r). ret (e, report r)))
>>=-report (ret (e, r)) f g report k = k e r
>>=-report panic f g report k = refl

get_agrees : (r : HkvResult (Option Bytes)) → get_result (value_of (get_reply r)) ≡ reported r
unfolding get_reply value_of get_result
get_agrees (Types.ok none) = refl
get_agrees (Types.ok (some value)) = refl
get_agrees (Types.err code) = refl

set_agrees : (r : HkvResult Unit) → set_result (value_of (ok_or_error r)) ≡ reported r
unfolding ok_or_error value_of set_result
set_agrees (Types.ok _) = refl
set_agrees (Types.err code) = refl

expire_agrees : (r : HkvResult Unit) → expire_result (value_of (expire_reply r)) ≡ applied r
unfolding expire_reply value_of expire_result is_one
expire_agrees (Types.ok _) = refl
expire_agrees (Types.err not_found) = refl
expire_agrees (Types.err _) = refl

as_i64-pos : (n : ℕ) → n < 2 ^ 63 → as_i64 n ≡ pos n
unfolding as_i64
as_i64-pos n h = ground (arith, h)

ttl_agrees :
    (r : HkvResult TtlStatus)
    → ((remaining : ℕ)
        → r ≡ Types.ok (Memory.expires_in remaining)
        → remaining / 1000000000 < 2 ^ 63)
    → ttl_result (value_of (ttl_reply r)) ≡ in_seconds r
unfolding ttl_reply value_of ttl_result
ttl_agrees (Types.ok Memory.missing) h = refl
ttl_agrees (Types.ok Memory.no_expiry) h = refl
ttl_agrees (Types.ok (Memory.expires_in remaining)) h =
    rw (as_i64-pos (remaining / 1000000000) (h remaining refl))
ttl_agrees (Types.err code) h = refl

encode_u64-parse :
    (v : ℕ) (seconds : Bytes)
    → v < word
    → encode_u64 v ≡ ret seconds
    → parse_usize seconds ≡ Decimal.ok v
unfolding encode_u64 push_usize
encode_u64-parse v seconds h e =
    let (ds, r, nc, p) = push_usize-parse_usize [] v h in
    subst (λ bs. parse_usize bs ≡ Decimal.ok v) (sym (same_result _ _ (sym e ∙ r))) p

module _ {E : Type 0} ⦃m : KvEngine E⦄ where
  -- What a client's command makes of a request, by `on_response`.
  abbrev pub seen :
      {A : Type 0}
      → (RespValue → ClientResult A)
      → Outcome (E × Reply)
      → Outcome (E × ClientResult A)
  seen on_response run = do (e, reply) ← run; ret (e, on_response (value_of reply))

  -- A result of the engine, as the client is to see it.
  abbrev pub told :
      {A B : Type 0}
      → (HkvResult A → ClientResult B)
      → Outcome (E × HkvResult A)
      → Outcome (E × ClientResult B)
  told report run = do (e, result) ← run; ret (e, report result)

  -- The engine does not answer with a time to live of 2^63 seconds or more.
  abbrev pub Brief : Bytes → E → Type 0
  Brief key e =
      (e' : E) (remaining : ℕ)
      → m.ttl key e ≡ ret (e', Types.ok (Memory.expires_in remaining))
      → remaining / 1000000000 < 2 ^ 63

  get-told :
      (info key : Bytes) (e : E)
      → seen get_result (dispatch_command info (bytes "GET" ∷ key ∷ []) e)
        ≡ told reported (m.get key e)
  unfolding dispatch_command eq_ignore_ascii_case to_lower handle_get
  get-told info key e =
      >>=-report (m.get key e) _ _ reported (λ e' r. ap (λ x. ret (e', x)) (get_agrees r))

  set-told :
      (info key value : Bytes) (e : E)
      → seen set_result (dispatch_command info (bytes "SET" ∷ key ∷ value ∷ []) e)
        ≡ told reported (m.set key value e)
  unfolding dispatch_command eq_ignore_ascii_case to_lower handle_set
  set-told info key value e =
      >>=-report (m.set key value e) _ _ reported (λ e' r. ap (λ x. ret (e', x)) (set_agrees r))

  set_with_ttl-told :
      (info key value seconds : Bytes) (v : ℕ) (e : E)
      → parse_usize seconds ≡ Decimal.ok v
      → seen set_result
          (dispatch_command info (bytes "SET" ∷ key ∷ value ∷ bytes "EX" ∷ seconds ∷ []) e)
        ≡ told reported (m.set_with_ttl key value (nanos v) e)
  unfolding dispatch_command eq_ignore_ascii_case to_lower handle_set
  set_with_ttl-told info key value seconds v e p = rw p (
      >>=-report (m.set_with_ttl key value (nanos v) e) _ _ reported
        (λ e' r. ap (λ x. ret (e', x)) (set_agrees r)))

  delete-told :
      (info key : Bytes) (e : E)
      → seen delete_result (dispatch_command info (bytes "DEL" ∷ key ∷ []) e)
        ≡ told reported (m.delete key e)
  unfolding dispatch_command eq_ignore_ascii_case to_lower handle_del delete_all on_delete value_of
      delete_result positive
  delete-told info key e = >>=-report (m.delete key e) _ _ reported on_deleted
    where
      on_deleted :
          (e' : E) (r : HkvResult Bool)
          → seen delete_result (on_delete (delete_all []) 0 (e', r)) ≡ ret (e', reported r)
      on_deleted e' (Types.ok true) = refl
      on_deleted e' (Types.ok false) = refl
      on_deleted e' (Types.err code) = refl

  expire-told :
      (info key seconds : Bytes) (v : ℕ) (e : E)
      → parse_usize seconds ≡ Decimal.ok v
      → seen expire_result (dispatch_command info (bytes "EXPIRE" ∷ key ∷ seconds ∷ []) e)
        ≡ told applied (m.expire key (nanos v) e)
  unfolding dispatch_command eq_ignore_ascii_case to_lower handle_expire
  expire-told info key seconds v e p =
      rw (p, handle_expire)
        (>>=-report (m.expire key (nanos v) e) _ _ applied
          (λ e' r. ap (λ x. ret (e', x)) (expire_agrees r)))

  ttl-told :
      (info key : Bytes) (e : E)
      → Brief key e
      → seen ttl_result (dispatch_command info (bytes "TTL" ∷ key ∷ []) e)
        ≡ told in_seconds (m.ttl key e)
  unfolding dispatch_command eq_ignore_ascii_case to_lower handle_ttl
  ttl-told info key e brief = reports (m.ttl key e) brief
    where
      reports :
          (run : Outcome (E × HkvResult TtlStatus))
          → ((e' : E) (remaining : ℕ)
              → run ≡ ret (e', Types.ok (Memory.expires_in remaining))
              → remaining / 1000000000 < 2 ^ 63)
          → seen ttl_result (do (e', result) ← run; ret (e', ttl_reply result))
            ≡ told in_seconds run
      reports (ret (e', r)) h =
          ap (λ x. ret (e', x)) (ttl_agrees r (λ n q. h e' n (ap (λ s. ret (e', s)) q)))
      reports panic h = refl

  -- For any engine and any key and value, if every time to live that the engine answers with is
  -- below 2^63 seconds: a client that sends `GET`, `SET`, `DEL` or `TTL` for the key and reads the
  -- reply of the server gets what the engine answers, and the engine is left as its own operation
  -- leaves it. An error of the engine becomes the server's error "ERR engine error", and a time to
  -- live comes in whole seconds.
  pub commands-told :
      (info key value : Bytes) (e : E)
      → Brief key e
      → (seen get_result (dispatch_command info (bytes "GET" ∷ key ∷ []) e)
          ≡ told reported (m.get key e))
        × (seen set_result (dispatch_command info (bytes "SET" ∷ key ∷ value ∷ []) e)
            ≡ told reported (m.set key value e))
        × (seen delete_result (dispatch_command info (bytes "DEL" ∷ key ∷ []) e)
            ≡ told reported (m.delete key e))
        × (seen ttl_result (dispatch_command info (bytes "TTL" ∷ key ∷ []) e)
            ≡ told in_seconds (m.ttl key e))
  commands-told info key value e brief = (
    get-told info key e,
    set-told info key value e,
    delete-told info key e,
    ttl-told info key e brief,
  )

  -- For any engine, and for times of whole seconds below 2^64 as `encode_u64` writes them: the
  -- `SET` with a time to live and the `EXPIRE` of a client call the engine with exactly that time,
  -- and the client gets what the engine answers, where `EXPIRE` of a missing key gives false.
  pub timed_commands-told :
      (info key value seconds : Bytes) (v : ℕ) (e : E)
      → v < word
      → encode_u64 v ≡ ret seconds
      → (seen set_result
            (dispatch_command info (bytes "SET" ∷ key ∷ value ∷ bytes "EX" ∷ seconds ∷ []) e)
          ≡ told reported (m.set_with_ttl key value (nanos v) e))
        × (seen expire_result (dispatch_command info (bytes "EXPIRE" ∷ key ∷ seconds ∷ []) e)
            ≡ told applied (m.expire key (nanos v) e))
  timed_commands-told info key value seconds v e h enc =
      let p = encode_u64-parse v seconds h enc in
      (set_with_ttl-told info key value seconds v e p, expire-told info key seconds v e p)
