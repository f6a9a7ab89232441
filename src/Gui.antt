-- ===== src/Gui.antt =====
-- hkv-gui/src-tauri/src: the backend of the desktop application.
pub mod Text
pub mod Models
pub mod Info
pub mod Manager
pub mod Runners
pub mod Benchmarks
pub mod RedisBenchmark
pub mod Repository
pub mod InfoPoller
pub mod AppState
pub mod Outcome
pub mod Tests
