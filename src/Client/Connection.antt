-- ===== src/Client/Connection.antt =====
-- hkv-client/src/pool.rs: one connection, and the errors after which a command is tried again. The
-- sockets are an interface: `W` is the state of the network, `S` a socket.
use hybird_kv.Prelude.{
  ℕ, Bool, true, false, Option, none, some, List, [], ◌∷◌, ◌++◌, Bytes, Outcome, ret, ◌>>=◌,
}
use hybird_kv.Wire.Encode.{encode_command}
use hybird_kv.Client.Error.{
  ErrorKind, broken_pipe, connection_reset, connection_aborted, not_connected, timed_out,
  unexpected_eof, interrupted, would_block, ClientError, io, protocol, invalid_address,
  ClientResult, ok, err,
}
use hybird_kv.Client.Response.{RespValue, read_response}

-- What `std::net` gives: `none` is a success, or the peer's end of the stream in `receive`. After
-- `receive`, the bytes are those that the peer still sends, and `failure` is how reading ends.
pub record Tcp (W S : Type 0) : Type 0 where
  pub parse_addr : Bytes → Option ℕ
  pub connect_addr : Option ℕ → ℕ → W → W × ClientResult S
  pub set_read_timeout : ℕ → S → W → W × Option ErrorKind
  pub set_write_timeout : ℕ → S → W → W × Option ErrorKind
  pub set_nodelay : S → W → W × Option ErrorKind
  pub set_nonblocking : Bool → S → W → W × Option ErrorKind
  pub peek : S → W → W × ClientResult ℕ
  pub write_all : Bytes → S → W → W × Option ErrorKind
  pub flush : S → W → W × Option ErrorKind
  pub receive : S → W → W × Bytes × Option ErrorKind

pub record PoolConfig : Type 0 where
  pub addr : Bytes
  pub max_idle : ℕ
  pub max_total : ℕ
  pub read_timeout : Option ℕ
  pub write_timeout : Option ℕ
  pub connect_timeout : Option ℕ

-- `buffer` holds the bytes of the peer that were received and not read yet.
pub record Connection (S : Type 0) : Type 0 where
  pub stream : S
  pub buffer : Bytes
  pub line_buf : Bytes
  pub write_buf : Bytes

pub data ExecError : Type 0 where
  retryable fatal : ClientError → ExecError

unfoldable pub into_client_error : ExecError → ClientError
into_client_error (retryable e) = e
into_client_error (fatal e) = e

-- `Result<RespValue, ExecError>`
pub data ExecResult : Type 0 where
  answered : RespValue → ExecResult
  failed : ExecError → ExecResult

unfoldable pub is_retryable_write_error_kind : ErrorKind → Bool
is_retryable_write_error_kind broken_pipe = true
is_retryable_write_error_kind connection_reset = true
is_retryable_write_error_kind connection_aborted = true
is_retryable_write_error_kind not_connected = true
is_retryable_write_error_kind timed_out = true
is_retryable_write_error_kind unexpected_eof = true
is_retryable_write_error_kind interrupted = true
is_retryable_write_error_kind _ = false

unfoldable pub classify_write_error : ErrorKind → ExecError
classify_write_error kind = elim (is_retryable_write_error_kind kind) [
  | true ↦ retryable (io kind)
  | false ↦ fatal (io kind)
]

unfoldable pub is_retryable_read_error_kind : ErrorKind → Bool
is_retryable_read_error_kind connection_reset = true
is_retryable_read_error_kind connection_aborted = true
is_retryable_read_error_kind not_connected = true
is_retryable_read_error_kind timed_out = true
is_retryable_read_error_kind unexpected_eof = true
is_retryable_read_error_kind interrupted = true
is_retryable_read_error_kind _ = false

unfoldable pub classify_read_error : ClientError → Bool → ExecError
classify_read_error e false = fatal e
classify_read_error (io kind) true = elim (is_retryable_read_error_kind kind) [
  | true ↦ retryable (io kind)
  | false ↦ fatal (io kind)
]
classify_read_error protocol true = retryable protocol
classify_read_error e true = fatal e

unfoldable pub is_empty : Bytes → Bool
is_empty [] = true
is_empty (_ ∷ _) = false

-- `value?`, after a step that may fail
abbrev pub try_io :
    {W A : Type 0} → W × Option ErrorKind → (W → W × ClientResult A) → W × ClientResult A
try_io (w, none) next = next w
try_io (w, some kind) next = (w, err (io kind))

-- `if let Some(timeout) = option { action(timeout)?; }`
abbrev pub when_some :
    {W : Type 0} → Option ℕ → (ℕ → W → W × Option ErrorKind) → W → W × Option ErrorKind
when_some none action w = (w, none)
when_some (some timeout) action w = action timeout w

-- the `match` on the result of `peek` in `is_healthy`
unfoldable pub silent : ClientResult ℕ → Bool
silent (err (io would_block)) = true
silent (err (io interrupted)) = true
silent _ = false

module _ {W S : Type 0} ⦃t : Tcp W S⦄ where
  unfoldable pub connect_stream : PoolConfig → W → W × ClientResult S
  connect_stream config w = elim (t.parse_addr config.addr) [
    | none ↦ (w, err invalid_address)
    | some addr ↦ t.connect_addr config.connect_timeout addr w
  ]

  unfoldable pub set_up : PoolConfig → W × ClientResult S → W × ClientResult (Connection S)
  set_up config (w, err e) = (w, err e)
  set_up config (w, ok stream) =
      try_io (when_some config.read_timeout (λ timeout. t.set_read_timeout timeout stream) w) (λ w1.
        try_io (when_some config.write_timeout (λ timeout. t.set_write_timeout timeout stream) w1)
          (λ w2. try_io (t.set_nodelay stream w2) (λ w3.
            (w3, ok (record { stream = stream; buffer = []; line_buf = []; write_buf = [] })))))

  unfoldable pub connect : PoolConfig → W → W × ClientResult (Connection S)
  unfolding set_up connect_stream
  connect config w = set_up config (connect_stream config w)

  -- the read of the reply in `exec`
  unfoldable pub read_reply : ℕ → ℕ → Connection S → W → Outcome (W × Connection S × ExecResult)
  read_reply item_size depth conn w = do
    let (w', incoming, failure) = t.receive conn.stream w
    (reader, result) ←
        read_response item_size depth
          (record { input = conn.buffer ++ incoming; failure = failure; line_buf = conn.line_buf })
    ret (
      w',
      record conn { buffer = reader.input; line_buf = reader.line_buf },
      elim result [
        | ok response ↦ answered response
        | err e ↦ failed (classify_read_error e (is_empty reader.line_buf))
      ],
    )

  unfoldable pub exec :
      ℕ → ℕ → List Bytes → Connection S → W → Outcome (W × Connection S × ExecResult)
  unfolding read_reply
  exec item_size depth args conn w = do
    write_buf ← encode_command args []
    let conn1 : Connection S = record conn { write_buf = write_buf }
    let (w1, wrote) = t.write_all write_buf conn.stream w
    elim wrote [
      | some kind ↦ ret (w1, conn1, failed (classify_write_error kind))
      | none ↦
          let (w2, flushed) = t.flush conn.stream w1 in
          elim flushed [
            | some kind ↦ ret (w2, conn1, failed (classify_write_error kind))
            | none ↦ read_reply item_size depth conn1 w2
          ]
    ]

  unfoldable pub is_healthy : Connection S → W → W × Bool
  unfolding silent is_empty
  is_healthy conn w = elim (is_empty conn.buffer) [
    | false ↦ (w, false)
    | true ↦
        let (w1, refused) = t.set_nonblocking true conn.stream w in
        elim refused [
          | some _ ↦ (w1, false)
          | none ↦
              let (w2, peeked) = t.peek conn.stream w1 in
              let (w3, refused') = t.set_nonblocking false conn.stream w2 in
              elim refused' [ some _ ↦ (w3, false) | none ↦ (w3, silent peeked) ]
        ]
  ]
