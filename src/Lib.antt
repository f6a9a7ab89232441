-- ===== src/Lib.antt =====
-- A verification library for HybridKV, a key-value store in Rust.
--
-- The program is a storage engine (hkv-engine) that a server (hkv-server) offers over RESP2, with
-- a client (hkv-client) and shared types (hkv-common). A command comes in through the parser of
-- the server, is carried out on the engine, and its reply goes back to the client. A desktop
-- application (hkv-gui) starts the server, shows what its INFO says, and runs benchmarks against
-- it.
--
-- Prelude: lists over the native numbers, byte strings, Boolean tests, vectors whose access out of
-- range panics, and `Outcome`, a result or a panic. Float: `f64`, an interface.
--
-- Engine (hkv-engine/src/memory.rs, hkv-engine/src/engine.rs)
--   Word: the wrap-around of the 64-bit atomic counters. HashMap: what is relied on of the
--   library's hash map, an interface with its documented laws. Node, Heap: `Node`,
--   `ExpirationEntry` and the expiration heap, as its entries in ascending order. Shard:
--   `ShardInner` and its methods under their names. The arena is a list of optional nodes, links
--   are slot indices, and an access that panics in the source is `panic`. Its children hold the
--   invariant `IsWf s xs`: the shard `s` holds the items `xs`, least recently used first. Memory:
--   what each method does while it holds the lock of one shard, on `Locked`, the shard and the
--   counters. `write_value` is split into its blocks (`drop_expired`, `overwrite`, `write_new`,
--   `schedule`). Cache is the abstract cache that it is compared with: a list of entries. Sharded:
--   `MemoryEngine`, with the routing of keys, the eviction, `purge_expired` and the methods of
--   `KVEngine`. `hash` is the library's hasher with its seed. `write_value` is `set` and
--   `set_with_ttl`.
--
-- Wire (hkv-client/src/resp.rs, hkv-server/src/protocol.rs)
--   Decimal: `push_usize` of the client and `parse_usize` of the server. Encode: `encode_command`.
--   Buffer: what is relied on of the library's byte buffer, an interface. Parser: `RespParser` and
--   `parse`, whose loop is split by the parser's state into `on_array_len`, `on_bulk_len` and
--   `on_bulk_data`. A length that overflows wraps, as in a release build.
--
-- Server (hkv-server/src/metrics.rs, hkv-server/src/server.rs)
--   Metrics: `LatencyHistogram` and `Metrics`, with the methods that record, and the scan of the
--   buckets for a rank, `percentile_from`. Tally: any sequence of calls. Info: the snapshot, the
--   figures made of it, and the text of `INFO`. Commands: `dispatch_command` and its handlers over
--   `KVEngine`, an interface here too. `parse_u64` has the body of the parser's `parse_usize`,
--   which stands for it. Respond: the bytes of a reply, by the `resp_*` functions. Observe: the
--   events of `planned_observations` and their log. Session: the loops of
--   `handle_connection_with_observation`, over an interface for the socket and the clocks: `drain`
--   is the inner one. Pipeline: several commands in one read. Observed: commands without an event.
--   Store: `memory_kv`, the `MemoryEngine` of the engine part as that interface, and what commands
--   do to the caches of its shards. Exact (hkv-server/src/observation/exact.rs): the evaluator
--   that counts the accesses of each key, on a hash map as an interface, and the counter of all
--   events. Ranking: `top_keys`.
--
-- Client (hkv-client/src/resp.rs, hkv-client/src/pool.rs, hkv-client/src/client.rs)
--   Error: `ClientError`, with an I/O error as its kind. Response: `read_response` and its parts,
--   on a stream that is the bytes to come and how it ends. Connection: `Connection` and the
--   classes of errors, over an interface for the sockets. Pool: `ConnectionPool`, whose state is
--   passed on. Api: `KVClient`, whose loop `exec_with_retry` is a round (`attempt`) and its
--   repetition. Frames, Answers: the replies of the server as the client reads them. Agreement:
--   the commands of the client against the handlers of the server. Slots, Interleavings: the
--   account of the pool in one call of `acquire`, and between threads. Rounds, Retries: the rounds
--   of the retry loop, and the account over them.
--
-- Common (hkv-common/src/error.rs, types.rs, ioctl.rs and protocol.rs)
--   Error: `HkvError`, its codes and categories. Types: `Key` and `Value`, fixed buffers with a
--   length, versions and deadlines. Entries: `EntryFlags`, a byte, `EntryMetadata` and `Entry`,
--   with clock readings as arguments. Ioctl: `IoctlCommand`. Protocol: the messages and their
--   constructors. Numbers: the decimal texts of integers, as the standard library writes and reads
--   them.
--
-- Gui (hkv-gui/src-tauri/src)
--   Text: the operations of the standard library on texts. Models (models.rs): the records.
--   Manager (server_manager.rs): `ServerManager`. What the operating system answers is a
--   parameter, and the calls that were made are part of the state. Children: the processes by
--   those calls. Info: `parse_info_snapshot`, whose loop is `on_lines` and whose `match` is
--   `on_field`. Info.Reads: the server's `INFO` as it reads it. InfoPoller (info_poller.rs):
--   `InfoPoller`, with the client's answers as arguments. Runners (runners/mod.rs): the events of
--   a run and the choice of a runner. RedisBenchmark (runners/redis_benchmark.rs): the command
--   line; Output: `parse_output`; Process: the events that a run sends, in any order of its two
--   readers; Stopping: `stop` and the waiting thread as steps. Benchmarks (benchmark_manager.rs):
--   `BenchmarkManager`; Methods: its methods; Worker: the loop of `spawn_event_worker`. An event
--   is handled as one step, and a broadcast channel is the list of what was sent. Finishing,
--   Lifecycle, Endings, Beginning: a run from its start to its end. Repository (run_repository.rs):
--   `RunRepository`, over an interface for the file and for JSON. AppState (state.rs): the methods
--   that combine these. The orders in which lists are shown are parameters.
--   Outcome: the runner and the worker together.
--
-- Fuel: the eviction loop takes it, and one more than there are entries is enough, since every
-- round drops an entry or ends the loop. The loop of `purge_expired` takes a round for each entry
-- of the heap and one more. `parse` takes it for its rounds, and a command needs two for each
-- argument and one for the count. `acquire` takes a round for each idle connection and one more,
-- and `exec_with_retry` one for each retry and one more. The depth of arrays in a reply is fuel
-- of `read_response`. `power_from` doubles at most 64 times, as a word has 64 bits. Time is a
-- number of nanoseconds. `latest` is the last instant that the platform can represent: the sum of
-- the source panics past it, and theorems on deadlines assume that it does not.
--
-- Not modelled: threads of the engine. A method runs as one step, its lock and its eviction
-- included, so that nothing is said of methods that run between the two; nor of methods between
-- the removal of a finished benchmark and its storing. The time that a socket takes. Sockets,
-- tokio tasks, the accept loop and the background expirer, the launchers of processes, the
-- commands of the GUI (commands.rs), its frontend and the engine's benchmark binary are left out:
-- they call the system or a framework, without logic of their own.
mod Prelude
pub mod Engine
pub mod Wire
pub mod Common
pub mod Server
pub mod Client
pub mod Gui
