-- ===== src/Lib.antt =====
-- A verification library for interstellar-db, a database of observations in space and time.
--
-- The program. An observation is a point, a time and a payload. The indexer
-- (crates/interstellar-index/src/lib.rs) maps a point and a time to a key of 20 bytes: the number of
-- the epoch, the Morton code of the point, and the nanoseconds since the start of the epoch. A query
-- asks for a sphere and a span of time; the indexer plans key ranges for it, and the store
-- (src/store.rs) scans them. The Merkle forest (crates/interstellar-index/src/merkle.rs) sums the
-- stored rows up, an octree per epoch whose nodes are the exclusive or of the digests below them;
-- two stores compare their forests (src/sync.rs) and exchange the rows of the cells that differ.
-- The store persists the tree of an epoch that has ended as a seal record, so that `open` need not
-- scan its rows. The hub (src/hub.rs) hands what lands in the store on to subscribers, the server
-- (src/bin/server.rs) puts all of it behind remote calls, and crates/interstellar-wasm offers the
-- indexer to a browser.
--
-- The files.
--   Base: names of the libraries, tests on numbers, bits, bytes, digits to the base 2, words with
--     wrap-around, and the ordered sets and maps of the standard library as sorted lists.
--   Float: f64 as a parameter, with the laws of IEEE 754 that the indexer relies on.
--   Indexer: `HybridSpatioTemporalIndexer`. Indexer/Morton has the Morton codes,
--     Indexer/Coordinate the coordinates and the depth of a query, Indexer/Key the keys,
--     Indexer/Prefixes the walk over the grid, Indexer/Ranges the planned ranges. The modules below
--     each of them hold the proofs.
--   Merkle: Merkle/Tree has `EpochTree` and the digests, Merkle/Forest has `MerkleForest`,
--     Merkle/Seal the seal records (`serialize_epoch`, `load_sealed_epoch`), Merkle/Diff the
--     comparison of two forests, each with its proofs below it.
--   Store: `SpatioTemporalStore` and the marks of writes in flight. Store/KeyValue has the key-value
--     tree as a parameter with its documented behaviour, Store/Entries its entries as a list.
--     Store/Ingest has `store`, `store_batch` and `ingest`, Store/Sealing `seal_settled_epochs`,
--     Store/Open `open`, Store/Query the queries and the scans. Store/Merge says what `ingest` does to
--     the rows, Store/Lockstep what it means that the forest is in step with them.
--   Sync: the handlers of `SyncService`, and in Sync/Pull `sync_once`.
--   Hub: `SubscriptionHub`. Server: the handlers of `Svc`. Wasm: the bindings.
--   Tests: a key-value tree, a fixed-point f64 that has the laws, and runs of the code.
--
-- Parameters. f64 (`F64`), SHA-256, the key-value tree (`Kv`: a commit lands whole or not at all, and
-- each call may fail), the bounded channels of the hub (`Mpsc`), the client of a peer (`Client`), and
-- the encoding of `Any` (`Prost`). What is assumed of the tree is `IsKv`.
--
-- Conventions. A panic is `none`, or `panic` where a result may also be an error, `err`. Subtraction of words is written with the test that the source
-- makes. `u32` and `u64` cut to their width, and shifts drop what leaves the word. Counters of rows
-- (u64) are taken to stay below 2^64. A HashMap is an association list by
-- ascending key; the source looks up in it, or sorts what it yields. SHA-256 is a function from bytes to bytes; nothing is assumed of it.
--
-- Fuel and loops. `for i in 0..21` is recursion on the number of rounds. An axis of the grid walk
-- runs on fuel `v_max + 1`: each round goes up by at least 1 and the walk stops behind `v_max`, so it
-- is enough. The loop over epochs recurses on the number of epochs. `descend` runs on fuel `leaf_depth / 3 + 1`, one more than
-- the number of levels below the root, since each call goes down a level.
-- `sync_once`, `pull_loop` and `ingest_stream` run on fuel that is an argument of `sync_once`: a peer
-- may stream rows for ever, as in the source, and then no fuel is enough. Where its streams end, some
-- is: the queue goes down one level after the other.
--
-- Not modelled: the interleaving of operations on one store (each runs alone, so its locks have no
-- counterpart), `close`, `main` of the server and the demonstration programs, which only read
-- arguments, spawn tasks and print, and the generated protocol code, of which the messages are records.
-- The `debug_assert!` of `generate_key` is left out, as in a release
-- build, and so is the capacity that is set aside for results.
pub mod Base
pub mod Float
pub mod Indexer
pub mod Merkle
pub mod Tests
pub mod Store
pub mod Sync
pub mod Hub
pub mod Wasm
pub mod Server
