-- ===== src/Server.antt =====
-- hkv-server: what the server counts, and how it answers commands.
pub mod Metrics
pub mod Counting
pub mod Tally
pub mod Commands
pub mod Dispatch
pub mod Percentile
mod Tests
mod Replies
pub mod Respond
pub mod Observe
pub mod Session
pub mod Pipeline
mod Requests
pub mod Observed
pub mod Store
pub mod Exact
pub mod Info
