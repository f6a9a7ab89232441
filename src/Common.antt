-- ===== src/Common.antt =====
-- hkv-common: the types that the components share.
pub mod Error
pub mod Codes
pub mod Types
pub mod Buffers
mod Tests
pub mod Ioctl
pub mod Protocol
pub mod Messages
pub mod Entries
pub mod Flags
pub mod Numbers
