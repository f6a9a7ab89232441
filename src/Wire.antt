-- ===== src/Wire.antt =====
-- RESP2 on the wire: the client's encoder (hkv-client/src/resp.rs) and the server's parser
-- (hkv-server/src/protocol.rs).
pub mod Decimal
pub mod Buffer
pub mod Encode
pub mod Parser
pub mod Lines
pub mod Encoded
pub mod Rounds
pub mod Exchange
pub mod Tests
