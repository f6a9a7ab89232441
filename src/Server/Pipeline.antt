-- ===== src/Server/Pipeline.antt =====
-- A connection of hkv-server/src/server.rs that gets several commands in one read.
use hybird_kv.Prelude.{
  ℕ, zero, suc, ◌+◌, ◌*◌, ◌<◌, ◌≡◌, refl, sym, ◌∙◌, ap, subst, Bool, true, false, none, some, List,
  [], ◌∷◌, ◌++◌, append_assoc, append-nil, Bytes, Outcome, ret, arith, length, if◌then◌else◌,
}
use hybird_kv.Engine.Word.{word}
use hybird_kv.Wire.Decimal.{ok}
use hybird_kv.Wire.Encode.{encode_command}
use hybird_kv.Wire.Encoded.{Fit}
use hybird_kv.Wire.Buffer.{BytesMut}
use hybird_kv.Wire.Parser.{RespParser, array_len, parse, done, on_array_len, read_line, line_end}
use hybird_kv.Wire.Rounds.{round-array_len}
use hybird_kv.Wire.Exchange.{encode_command-parse}
use hybird_kv.Server.Metrics.{Metrics, record_request_start, record_request_end, record_error}
use hybird_kv.Server.Tally.{
  Call, request_start, error, request_end, starts, ends, Tallies, record_request_start-Tallies,
  record_error-Tallies, record_request_end-Tallies,
}
use hybird_kv.Server.Commands.{KvEngine, Reply, dispatch_command}
use hybird_kv.Server.Respond.{resp}
use hybird_kv.Server.Observe.{planned_observations, observe, is_error_response}
use hybird_kv.Server.Session.{
  Host, Session, Ending, waiting, respond, on_request, if_written, on_parsed, drain,
}

-- The metrics count `n` requests that started and `k` that ended.
abbrev pub Counted : List ℕ → ℕ → ℕ → Metrics → Type 0
Counted bounds n k m =
    (calls : List Call) × Tallies m bounds calls × (starts calls ≡ n) × (ends calls ≡ k)

same_counts :
    {bounds : List ℕ} {m : Metrics} {n n' k k' : ℕ}
    → n ≡ n'
    → k ≡ k'
    → Counted bounds n k m
    → Counted bounds n' k' m
same_counts p q (calls, t, s, e) = (calls, t, s ∙ p, e ∙ q)

one_started :
    (bounds : List ℕ) (n k : ℕ) (m : Metrics)
    → Counted bounds n k m
    → Counted bounds (suc n) k (record_request_start m)
one_started bounds n k m (calls, t, s, e) =
    (request_start ∷ calls, record_request_start-Tallies m bounds calls t, ap suc s, e)

one_ended :
    (bounds : List ℕ) (n k latency : ℕ) (failed : Bool) (m : Metrics)
    → Counted bounds n k m
    → (m' : Metrics) × (record_request_end latency (if failed then record_error m else m) ≡ ret m')
      × Counted bounds n (suc k) m'
one_ended bounds n k latency true m (calls, t, s, e) =
    let (m', r, u) =
      record_request_end-Tallies latency (record_error m) bounds (error ∷ calls)
        (record_error-Tallies m bounds calls t) in
    (m', r, (request_end latency ∷ error ∷ calls, u, s, ap suc e))
one_ended bounds n k latency false m (calls, t, s, e) =
    let (m', r, u) = record_request_end-Tallies latency m bounds calls t in
    (m', r, (request_end latency ∷ calls, u, s, ap suc e))

module _ {E : Type 0} ⦃m : KvEngine E⦄ where
  -- The commands of a list, one after the other, and the responses that they get. INFO, whose text
  -- depends on the metrics, is not among them.
  pub data Answers : List (List Bytes) → E → E → List Bytes → Type 0 where
    no_more : (e : E) → Answers [] e e []
    answer :
        (args : List Bytes) (cmds : List (List Bytes)) (e e' e2 : E) (reply : Reply)
        (response : Bytes) (responses : List Bytes)
        → ((info : Bytes) → dispatch_command info args e ≡ ret (e', reply))
        → resp reply ≡ ret response
        → Answers cmds e' e2 responses
        → Answers (args ∷ cmds) e e2 (response ∷ responses)

-- Commands one after the other as a client encodes them, each of which the parser reads within
-- `rounds` rounds.
pub data Encoded (rounds : ℕ) : List (List Bytes) → Bytes → Type 0 where
  nothing : Encoded rounds [] []
  command :
      (a : Bytes) (args : List Bytes) (bytes : Bytes) (cmds : List (List Bytes)) (rest : Bytes)
      → Fit (a ∷ args)
      → length (a ∷ args) < word
      → 2 * length (a ∷ args) < rounds
      → encode_command (a ∷ args) [] ≡ ret bytes
      → Encoded rounds cmds rest
      → Encoded rounds ((a ∷ args) ∷ cmds) (bytes ++ rest)

module _ {Buf : Type 0} ⦃b : BytesMut Buf⦄ where
  idle_line :
      (p : RespParser) (buf : Buf)
      → b.contents buf ≡ []
      → on_array_len p buf ≡ ret (p, buf, done (ok none))
  unfolding on_array_len read_line line_end
  idle_line p buf e = rw (e, on_array_len, read_line) refl

  -- The parser between commands, on no bytes.
  idle_round :
      (rounds : ℕ) (p : RespParser) (buf : Buf)
      → p.state ≡ array_len
      → b.contents buf ≡ []
      → parse (suc rounds) p buf ≡ ret (p, buf, ok none)
  unfolding parse
  idle_round rounds p buf st e = rw (round-array_len p buf st ∙ idle_line p buf e) refl

-- Every write succeeds.
abbrev pub Accepts : (W : Type 0) ⦃h : Host W⦄ → Type 0
Accepts W ⦃h = h⦄ = (response : Bytes) (w : W) → (h.write_all response w).1 ≡ true

module _ {Buf E W : Type 0} ⦃b : BytesMut Buf⦄ ⦃m : KvEngine E⦄ ⦃h : Host W⦄ (bounds : List ℕ) where
  -- What one response changes: it is sent, and the metrics count the end of a request.
  record Answered (n k : ℕ) (response : Bytes) (s s' : Session Buf E W) : Type 0 where
    same_parser : s'.parser ≡ s.parser
    same_buffer : s'.buffer ≡ s.buffer
    same_engine : s'.engine ≡ s.engine
    sent_one : h.sent s'.world ≡ h.sent s.world ++ response ∷ []
    counted : Counted bounds n (suc k) s'.metrics

  respond-Answered :
      (n k : ℕ) (response : Bytes) (s : Session Buf E W)
      → Accepts W
      → Counted bounds n k s.metrics
      → (s' : Session Buf E W) × (respond response s ≡ ret (s', true)) × Answered n k response s s'
  unfolding respond
  respond-Answered n k response s accepts c =
      let w1 : W = (h.write_all response s.world).0 in
      let (m2, r, c2) =
        one_ended bounds n k (h.elapsed w1).1 (is_error_response response) s.metrics c in
      let s' : Session Buf E W = record s { metrics = m2; world = (h.elapsed w1).0 } in
      (
        s',
        rw (r, respond) (ap (λ t. ret (s', t)) (accepts response s.world)),
        record {
          same_parser = refl;
          same_buffer = refl;
          same_engine = refl;
          sent_one =
              h.elapsed-sent w1
              ∙ h.write_all-sent response s.world w1 (ap (λ t. (w1, t)) (accepts response s.world));
          counted = c2;
        },
      )

  on_request-Answered :
      (info : Metrics → Bytes) (n k : ℕ) (args : List Bytes) (s : Session Buf E W) (e' : E)
      (reply : Reply) (response : Bytes)
      → Accepts W
      → ((info : Bytes) → dispatch_command info args s.engine ≡ ret (e', reply))
      → resp reply ≡ ret response
      → Counted bounds n k s.metrics
      → (s' : Session Buf E W) × (on_request info args s ≡ ret (s', true))
        × Answered (suc n) k response (record s { engine = e' }) s'
  unfolding on_request
  on_request-Answered info n k args s e' reply response accepts d w c =
      let s1 : Session Buf E W = record s {
        engine = e';
        metrics = record_request_start s.metrics;
        log = observe response (planned_observations (h.now s.world).1 args) s.log;
        world = (h.now s.world).0;
      } in
      let (s', r, a) =
        respond-Answered (suc n) k response s1 accepts (one_started bounds n k s.metrics c) in
      (
        s',
        rw (d (info (record_request_start s.metrics)), on_request) (rw w r),
        record {
          same_parser = a.same_parser;
          same_buffer = a.same_buffer;
          same_engine = a.same_engine;
          sent_one = a.sent_one ∙ ap (λ sent. sent ++ response ∷ []) (h.now-sent s.world);
          counted = a.counted;
        },
      )

  -- What the inner loop leaves after a list of commands.
  pub record Drained (n k count : ℕ) (e2 : E) (responses : List Bytes) (s : Session Buf E W)
      (run : Outcome (Session Buf E W × Ending)) : Type 0 where
    pub last : Session Buf E W
    pub returns : run ≡ ret (last, waiting)
    pub idle : last.parser.state ≡ array_len
    pub taken : b.contents last.buffer ≡ []
    pub engine_after : last.engine ≡ e2
    pub all_sent : h.sent last.world ≡ h.sent s.world ++ responses
    pub all_counted : Counted bounds (n + count) (k + count) last.metrics

  one_drained :
      (info : Metrics → Bytes) (rounds fuel : ℕ) (args : List Bytes) (s s2 : Session Buf E W)
      (p' : RespParser) (buf' : Buf)
      → parse rounds s.parser s.buffer ≡ ret (p', buf', ok (some args))
      → on_request info args (record s { parser = p'; buffer = buf' }) ≡ ret (s2, true)
      → drain info rounds (suc fuel) s ≡ drain info rounds fuel s2
  unfolding drain on_parsed if_written
  one_drained info rounds fuel args s s2 p' buf' p r = rw (p, drain) (rw (r, on_parsed) refl)

  none_drained :
      (info : Metrics → Bytes) (rounds fuel : ℕ) (s : Session Buf E W)
      → s.parser.state ≡ array_len
      → b.contents s.buffer ≡ []
      → drain info (suc rounds) (suc fuel) s ≡ ret (s, waiting)
  unfolding drain on_parsed
  none_drained info rounds fuel s st e = rw (idle_round rounds s.parser s.buffer st e, drain) refl

  -- A client sends commands one after the other, none of them INFO, and their bytes are in the
  -- buffer of a connection whose parser is between commands. If every write succeeds, the inner
  -- loop, with a round more than there are commands, carries them out in their order on the engine,
  -- sends their responses in that order, takes all the bytes, and waits with the parser between
  -- commands. The metrics count each command as a request that has started and ended.
  pub drain-Drained :
      (info : Metrics → Bytes) (rounds fuel n k : ℕ) (cmds : List (List Bytes)) (bytes : Bytes)
      (s : Session Buf E W) (e2 : E) (responses : List Bytes)
      → Accepts W
      → Encoded rounds cmds bytes
      → Answers cmds s.engine e2 responses
      → length cmds < fuel
      → 0 < rounds
      → s.parser.state ≡ array_len
      → b.contents s.buffer ≡ bytes
      → Counted bounds n k s.metrics
      → Drained n k (length cmds) e2 responses s (drain info rounds fuel s)
  drain-Drained info rounds zero n k cmds bytes s e2 responses accepts enc ans l pos st c t =
      elim l [ ]
  drain-Drained info zero (suc fuel) n k cmds bytes s e2 responses accepts enc ans l pos st c t =
      elim pos [ ]
  drain-Drained info (suc rounds) (suc fuel) n k _ _ s _ _ accepts nothing (no_more e) l pos st c
        t =
      record {
        last = s;
        returns = none_drained info rounds fuel s st c;
        idle = st;
        taken = c;
        engine_after = refl;
        all_sent = sym (append-nil (h.sent s.world));
        all_counted = same_counts (omega arith) (omega arith) t;
      }
  drain-Drained info (suc rounds) (suc fuel) n k _ _ s _ _ accepts
        (command a args bytes cmds rest fit few more enc encs)
        (answer _ _ e e' e2 reply response responses d w ans) l pos st c t =
      let (p', buf', pr, idle, left) =
        encode_command-parse a args bytes rest (suc rounds) s.parser s.buffer fit few more enc st
          c in
      let s1 : Session Buf E W = record s { parser = p'; buffer = buf' } in
      let (s2, r, an) =
        on_request-Answered info n k (a ∷ args) s1 e' reply response accepts d w t in
      let rest_drained =
        drain-Drained info (suc rounds) fuel (suc n) (suc k) cmds rest s2 e2 responses accepts encs
          (subst (λ e. Answers cmds e e2 responses) (sym an.same_engine) ans) (omega arith) pos
          (ap (λ p. p.state) an.same_parser ∙ idle) (ap b.contents an.same_buffer ∙ left)
          an.counted in
      record {
        last = rest_drained.last;
        returns =
            one_drained info (suc rounds) fuel (a ∷ args) s s2 p' buf' pr r ∙ rest_drained.returns;
        idle = rest_drained.idle;
        taken = rest_drained.taken;
        engine_after = rest_drained.engine_after;
        all_sent =
            rest_drained.all_sent
            ∙ ap (λ sent. sent ++ responses) an.sent_one
            ∙ append_assoc (h.sent s.world) (response ∷ []) responses;
        all_counted = same_counts (omega arith) (omega arith) rest_drained.all_counted;
      }
