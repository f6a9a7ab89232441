-- ===== src/Engine.antt =====
-- hkv-engine: the in-memory storage engine (hkv-engine/src/memory.rs, hkv-engine/src/engine.rs).
pub mod Word
pub mod HashMap
pub mod Node
pub mod Heap
pub mod Shard
pub mod Memory
pub mod Sharded
pub mod Tests
