-- ===== src/Client.antt =====
-- hkv-client/src: the reader of replies, the pool of connections and the commands of the client.
pub mod Error
pub mod Response
pub mod Frames
pub mod Answers
pub mod Connection
pub mod Pool
pub mod Api
mod Slots
mod Rounds
mod Retries
mod Interleavings
pub mod Agreement
mod Tests
