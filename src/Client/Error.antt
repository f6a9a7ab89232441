-- ===== src/Client/Error.antt =====
-- hkv-client/src/client.rs: the errors of the client, and its results. An I/O error is its kind.
use hybird_kv.Prelude.{Bytes}

-- the kinds of `std::io::ErrorKind` that the client tells apart
pub data ErrorKind : Type 0 where
  broken_pipe connection_refused connection_reset connection_aborted : ErrorKind
  not_connected timed_out unexpected_eof interrupted would_block other_kind : ErrorKind

pub data ClientError : Type 0 where
  io : ErrorKind → ClientError
  protocol : ClientError
  server : Bytes → ClientError
  unexpected_response pool_exhausted invalid_address : ClientError

pub data ClientResult (A : Type 0) : Type 0 where
  ok : A → ClientResult A
  err : ClientError → ClientResult A
