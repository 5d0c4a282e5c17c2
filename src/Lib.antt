-- ===== src/Lib.antt =====
-- The download engine of Tachyon, an accelerated downloader for model files.
--
-- A download task probes its source, plans the file as fragments, downloads them side by side, each in
-- a task of its own with retries and a circuit breaker for its source, writes each batch of bytes at
-- its place in the file, obeys a control channel (pause, resume, cancel) all the while, and verifies
-- the file at last.
--
-- Core models crates/tachyon-core/src: Core/Error the error kinds and results of error.rs, Core/State
-- the task state machine and pause timer of types.rs, Core/FragmentInfo the byte ranges of types.rs,
-- Core/RateLimit the limiter of rate_limit.rs, Core/Config the validation of config.rs, Core/Filename
-- the names of filename.rs, Core/UrlSafety the checks of url_safety.rs against requests to inner
-- addresses. Engine models crates/tachyon-engine/src. Engine/Circuit is circuit_breaker.rs, a breaker
-- per source behind a map; Engine/Fragment is FragmentRecord of fragment.rs, its state machine and its
-- backoff; Engine/Plan is compute_fragment_size of fragment.rs and plan_fragments of orchestrator.rs.
-- The other modules are downloader.rs: Engine/Control is wait_control_rx and watch_for_interrupt,
-- Engine/Write is write_all_at, Engine/Stream is download_single_fragment, Engine/Retry the retry loop
-- that execute_fragmented_download spawns for each fragment, Engine/Join the start of those tasks,
-- what their results do to the download, and the resumed fragments of plan, and Engine/Full is
-- execute_full_download, for servers without ranges; Engine/Run is run, from probe to verification and
-- the terminal state. Engine/Pool is the connection pool of connection.rs, as interleavings of the
-- atomic steps of its users. Dht/Bucket and Dht/Table are KBucket and RoutingTable of
-- crates/tachyon-p2sp/src/dht/kbucket.rs with the distance of node.rs, Dht/Closest its find_closest,
-- and Dht/Kademlia the admission of nodes of kademlia.rs. Scheduler/Queue is the task queue of
-- crates/tachyon-scheduler/src/scheduler.rs. Io/Buffer and Io/Pipeline are the buffer pool and the
-- plan of writes of crates/tachyon-io/src. Store/Key is safe_key and unsafe_key of
-- crates/tachyon-store/src/store.rs, Store/Recovery the saved tasks of recovery.rs. Engine/Storage
-- states what the engine relies on of the trait AsyncStorage in crates/tachyon-io/src/storage.rs, as a
-- record of operations and laws that the models of writing take as a parameter; Engine/Storage/Memory
-- is one such storage, whose writes may be short. Base has the Boolean tests, lists, maps and machine
-- words that the models share.
--
-- Code that awaits returns an Async: a value, an error, a panic, or that it still waits. What a task
-- meets while it runs (the stream of the server, the events of the control channel, which branch of a
-- select wins, the clock, the effect of other tasks on the shared breakers) is an argument, so the
-- theorems hold for every such course of events. A machine integer is a natural number, with its
-- wrap-around, its check or its panic written out. The bandwidth estimate, an f64 average, is an
-- argument of planning; the one product of an f64 there is rounded as IEEE 754 does.
--
-- The parsers of addresses and URLs, the resolver, UTF-8 and the heap of the standard library are
-- arguments too; the heap comes with the laws of its pop.
--
-- Loops take fuel: planning the size of the file plus one, since each round advances by a byte;
-- write_all_at the length of its batch, since each round writes a byte; the retry loop one more than
-- the retries allowed; the pop of the task queue one more than its entries; find_closest the number of
-- buckets. The models answer `exhausted` or `none` where fuel would not do.
--
-- Not modelled: the operating system behind the storage, the network clients, the hash libraries, the
-- database, the GPU code and the desktop application; log messages and the texts of errors. In the
-- models of a download the permits of the pool and the rate limiter only delay.
mod Base
pub mod Core
pub mod Dht
pub mod Engine
pub mod Io
pub mod Scheduler
pub mod Store
