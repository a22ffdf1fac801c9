-- ===== src/Lib.antt =====
-- AetherMesh: a mesh of nodes that run tasks where their data is.
--
-- A controller accepts tasks, lets them wait in a priority queue, chooses a node for each and runs
-- workflows of tasks that read each other's results. The parts, with the files that model them
-- (paths from the repository's root):
--
-- - Task, Labels, Node: the data of crates/aether-core/src (task.rs, data.rs, labels.rs, node.rs).
--   Ids are numbers, texts lists of code points (Text), times and durations nanoseconds.
-- - Digest: crates/aether-core/src/data.rs, the text form of ids, over UTF-8 bytes.
--   `u8::from_str_radix` is modelled as documented.
-- - Queue: crates/aether-controller/src/queue.rs. `push_with_timeout`, `make_room`, `pop` and
--   `expire` are functions from a queue to the new queue and the result. Order, Choice, Room,
--   Admission, Expiry, Aging, Fairness and Run hold the proofs. The clock is an argument.
-- - Catalog: crates/aether-scheduler/src/locality.rs, which node holds which dataset.
-- - Scheduler: lib.rs and advanced.rs of the same crate. The catalog feeds two of the schedulers.
--   Placement holds the proofs, Instances the three as values of the interface.
-- - Workflow: crates/aether-core/src/workflow.rs, with the proofs in Deps, Rounds, Order and
--   Acyclic.
-- - Checkpoint: crates/aether-controller/src/checkpoint.rs, what a resumed run takes over.
-- - Flow: crates/aether-controller/src/flow.rs. The workflow gives the order, the catalog says
--   where results are, and the journal records them. Which running step finishes next, and with
--   what, is a choice of the environment: a run is a chain of `settle` steps. Counts holds lemmas,
--   Success the runs that are not resumed, Release what a failed or a resumed step does to others.
-- - Store: crates/aether-core/src/store.rs, the bytes a node holds, with the clock that orders its
--   blobs by last use. Accounting, Evict, Budget, Put, Grows and Run hold the proofs.
-- - Chunk: crates/aether-core/src/chunk.rs, datasets cut into chunks; its assembler takes from the
--   store what is already there. Where the code would panic, the answer is `none`.
-- - Registry: registry.rs, health.rs and the smoothing of probe.rs in
--   crates/aether-controller/src. An eviction reaches the registry, the Connections (the channel
--   tables of connections.rs) and the catalog.
-- - Cache: crates/aether-controller/src/cache.rs, results by the work they did. Keys, Lookup, Run
--   Answers and Again.
-- - Compress: crates/aether-core/src/compress.rs, the codec of a transfer.
-- - Traffic: the counters of crates/aether-controller/src/observability.rs.
-- - History: crates/aether-controller/src/history.rs, the ring of finished tasks.
-- - Autoscale: crates/aether-controller/src/autoscale.rs. It reads the registry, the connections and
--   the queue's counters; `f64` is a parameter. Bounds, Cooldown and Wait hold the proofs.
-- - Heartbeat, Reconnect: heartbeat.rs and reconnect.rs of crates/aether-agent/src, how often a node
--   speaks up, which decides whether Registry calls it stale, and when it comes back.
-- - Controller: the state of the `Controller` of crates/aether-controller/src/dispatch.rs, built
--   from the registry, catalog, store, cache, counters and history above, and the operations on it
--   that reach no node. InFlight and Publish hold the proofs.
-- - Dispatch: `submit` and what it calls, in the same file. Transport has the trait `TaskTransport`
--   as a record over an unknown state of the world, and computations that change the controller and
--   that world and end with a value, an error or a panic; Inputs transfers what a task reads; the
--   scheduler is one that keeps the interface of Scheduler, as Scheduler.Instances shows of the
--   three. Kept is the rule by which a transfer keeps a predicate, Logged and
--   Chosen follow an attempt and the choice of its node; Frame, Trace, Cuts, Lost, Calm,
--   Settled and Cached hold the results. The model has one submission at a time: nothing else changes the
--   controller while it waits for a node, so that a transfer lock is always free.
--
-- Base holds what the parts share: tests on numbers, lists, association lists for `HashMap`,
-- vectors, sorting, the fold behind `min_by_key` and `max_by_key`, and counting in lists of numbers.
--
-- Fuel: the loop of `expire` takes the number of entries, since each round passes an entry or
-- removes it; the loop of `order` takes the number of steps, since each round moves one step into
-- the plan; the eviction loop takes the number of blobs, since each round drops one. These are
-- proved to be enough. The history loop takes the number of entries, with a proof too. Cutting into
-- chunks takes the number of bytes. The loop of `submit` counts the attempts that are left.
--
-- Arguments of the model, not code of the repository: BLAKE3, LZ4, the UTF-8 encoding, f32 (Node), f64
-- (Registry, Autoscale), the f64 quotient behind aging, `Instant::checked_add` (Queue) and the transport of
-- tasks and data (Dispatch). Counters wrap at 2^64, the counts of tasks in flight and the indexes of chunks at
-- 2^32, and the counters of `flow.rs` as in a release build, without overflow checks; sums
-- of bytes that are held in memory do not. Not modelled: sockets, files, JSON, TLS, cloud APIs, the waiters of
-- connections.rs, the terminal interface, WebAssembly engines and the SDKs.
pub mod Base
pub mod Text
pub mod Labels
pub mod Task
pub mod Node
pub mod Catalog
pub mod Scheduler
pub mod Queue
pub mod Workflow
pub mod Checkpoint
pub mod Flow
pub mod Store
pub mod Chunk
pub mod Connections
pub mod Registry
pub mod Cache
pub mod Digest
pub mod Compress
pub mod Traffic
pub mod History
pub mod Controller
pub mod Dispatch
pub mod Autoscale
pub mod Heartbeat
pub mod Reconnect
