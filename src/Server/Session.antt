-- ===== src/Server/Session.antt =====
-- hkv-server/src/server.rs: one connection, `handle_connection_with_observation`. The socket and
-- the clocks are an interface, the text of INFO is an argument, and the chunks that the reads give
-- are a list, at whose end the peer closes. `rounds` bounds the rounds of the parser, and `fuel`
-- the requests that one chunk completes.
use hybird_kv.Prelude.{
  ℕ, zero, suc, Bool, true, false, Option, none, some, List, [], ◌∷◌, ◌++◌, Bytes, bytes, Outcome,
  ret, panic, ◌>>=◌, ◌≡◌, if◌then◌else◌,
}
use hybird_kv.Wire.Decimal.{Parsed, ok, protocol}
use hybird_kv.Wire.Buffer.{BytesMut}
use hybird_kv.Wire.Parser.{RespParser, start, parse}
use hybird_kv.Server.Metrics.{Metrics, record_request_start, record_request_end, record_error}
use hybird_kv.Server.Commands.{KvEngine, dispatch_command}
use hybird_kv.Server.Respond.{resp, resp_error}
use hybird_kv.Server.Observe.{ObservationEvent, planned_observations, is_error_response, observe}

-- The socket and the clocks. `write_all` tells whether it succeeded, and then it sent those bytes.
pub record Host (W : Type 0) : Type 0 where
  pub write_all : Bytes → W → W × Bool
  pub elapsed : W → W × ℕ
  pub now : W → W × (ℕ → ℕ)
  pub sent : W → List Bytes
  pub write_all-sent :
      (response : Bytes) (w w' : W)
      → write_all response w ≡ (w', true)
      → sent w' ≡ sent w ++ response ∷ []
  pub elapsed-sent : (w : W) → sent (elapsed w).0 ≡ sent w
  pub now-sent : (w : W) → sent (now w).0 ≡ sent w

pub record Session (Buf E W : Type 0) : Type 0 where
  pub parser : RespParser
  pub buffer : Buf
  pub engine : E
  pub metrics : Metrics
  pub log : Option (List ObservationEvent)
  pub world : W

-- How the inner loop ends: it waits for more bytes, the connection is closed after a protocol
-- error, or a write failed.
pub data Ending : Type 0 where
  waiting closed broken : Ending

module _ {Buf E W : Type 0} ⦃b : BytesMut Buf⦄ ⦃m : KvEngine E⦄ ⦃h : Host W⦄ where
  -- `write_all`, and `finish_tracked_request` without its `?`
  unfoldable pub respond : Bytes → Session Buf E W → Outcome (Session Buf E W × Bool)
  respond response s = do
    let (w1, wrote) = h.write_all response s.world
    let m1 = if is_error_response response then record_error s.metrics else s.metrics
    let (w2, latency) = h.elapsed w1
    m2 ← record_request_end latency m1
    ret (record s { metrics = m2; world = w2 }, wrote)

  -- A request. The events of commands that are not observed are none.
  unfoldable pub on_request :
      (Metrics → Bytes) → List Bytes → Session Buf E W → Outcome (Session Buf E W × Bool)
  unfolding respond
  on_request info args s = do
    let m1 = record_request_start s.metrics
    (e', reply) ← dispatch_command (info m1) args s.engine
    response ← resp reply
    let (w1, clock) = h.now s.world
    respond response (record s {
      engine = e';
      metrics = m1;
      log = observe response (planned_observations clock args) s.log;
      world = w1;
    })

  unfoldable pub on_protocol_error : Session Buf E W → Outcome (Session Buf E W × Bool)
  unfolding respond
  on_protocol_error s =
      respond (resp_error (bytes "protocol error"))
        (record s { metrics = record_request_start s.metrics })

  -- `?` on the result of a write, with `again` for the rest of the loop
  unfoldable pub if_written :
      (Session Buf E W → Outcome (Session Buf E W × Ending))
      → Session Buf E W × Bool
      → Outcome (Session Buf E W × Ending)
  if_written again (s, true) = again s
  if_written again (s, false) = ret (s, broken)

  unfoldable pub on_parsed :
      (Metrics → Bytes)
      → (Session Buf E W → Outcome (Session Buf E W × Ending))
      → Parsed (Option (List Bytes))
      → Session Buf E W
      → Outcome (Session Buf E W × Ending)
  unfolding if_written
  on_parsed info again (ok none) s = ret (s, waiting)
  on_parsed info again (ok (some args)) s = do
    answered ← on_request info args s
    if_written again answered
  on_parsed info again protocol s = do
    answered ← on_protocol_error s
    if_written (λ s'. ret (s', closed)) answered

  -- the inner loop
  unfoldable pub drain :
      (Metrics → Bytes) → ℕ → ℕ → Session Buf E W → Outcome (Session Buf E W × Ending)
  unfolding on_parsed
  drain info rounds zero s = panic
  drain info rounds (suc fuel) s = do
    (parser, buffer, result) ← parse rounds s.parser s.buffer
    on_parsed info (drain info rounds fuel) result (record s { parser = parser; buffer = buffer })

  -- the outer loop, on the chunks that the reads give, none of them empty
  unfoldable pub handle_chunks :
      (Metrics → Bytes)
      → (Bytes → Buf → Buf)
      → ℕ
      → ℕ
      → List Bytes
      → Session Buf E W
      → Outcome (Session Buf E W × Ending)
  handle_chunks info read_buf rounds fuel [] s = ret (s, closed)
  handle_chunks info read_buf rounds fuel (chunk ∷ chunks) s = do
    (s', ending) ← drain info rounds fuel (record s { buffer = read_buf chunk s.buffer })
    elim ending [
      | waiting ↦ handle_chunks info read_buf rounds fuel chunks s'
      | closed ↦ ret (s', closed)
      | broken ↦ ret (s', broken)
    ]

  -- `handle_connection_with_observation`, from its first read on
  unfoldable pub handle_connection :
      (Metrics → Bytes)
      → (Bytes → Buf → Buf)
      → ℕ
      → ℕ
      → Buf
      → E
      → Metrics
      → Option (List ObservationEvent)
      → List Bytes
      → W
      → Outcome (Session Buf E W × Ending)
  handle_connection info read_buf rounds fuel empty e metrics log chunks w =
      handle_chunks info read_buf rounds fuel chunks (record {
        parser = start;
        buffer = empty;
        engine = e;
        metrics = metrics;
        log = log;
        world = w;
      })
