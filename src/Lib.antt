-- ===== src/Lib.antt =====
-- Verification of the HotShot query service: a service that keeps the leaves and blocks which
-- consensus decides, and answers queries about them.
--
-- The parts and the files that model them:
--
-- - AppendLog: the interface of the crate atomic_store's append log, with the laws that are relied
--   on. It is a parameter of everything above it.
-- - LedgerLog: `LedgerLog` of src/data_source/ledger_log.rs, a log with a cache of its last objects
--   and a broadcast stream. Iter is the iterator, Defs the operations (`create`, `open` as
--   `open_log`, `store_resource`, `insert`, `commit_version`, `skip_version`, `revert_version`,
--   `subscribe`). The other children are about its invariant (Inv), its contents (Contents), what
--   is read (Reads), its stream (Stream, Broadcast) and sequences of operations (Reach).
-- - NodeTypes: what comes from HotShot and from the application.
-- - Errors: `QueryError` of src/lib.rs.
-- - Availability: src/availability/query_data.rs (Payload, QueryData).
-- - FileSystem: `FileSystemDataSource` of src/data_source/fs.rs, two ledger logs with four indices.
--   Index has the indices, Range `range_stream`, Defs the operations that change the data source,
--   Queries those that read it, Open the ones that open it. Stored, Flatten, Slice, Reopen,
--   Placed (chains in which every leaf stands at its height), Proposals (the leaves of a proposer),
--   Transactions (what the index of transactions holds) and Served (a service on files) have proofs.
-- - Update: `update` of src/data_source/update.rs, over an interface of inserts that the data source
--   on files fills, and the loop of `run_standalone_service` in src/lib.rs (Service). Decided has what the
--   loop stores over any data source that puts each leaf behind the earlier ones.
-- - Metrics: src/metrics.rs, a tree of groups in a store that the handles share. Values and Histograms have
--   what handles do, Handles is about what they read.
-- - Api: src/availability.rs, its errors, status codes, handlers and routes, over an interface of
--   queries that the data source on files fills. Transactions is about requests for a transaction,
--   Routes.Questions and Routes.Answers about what each route answers on files.
-- - Status: src/status/data_source.rs, src/data_source/metrics.rs and src/status.rs, queries that read
--   metrics (Height is about the block height), and the routes (Routes).
-- - Extension: src/data_source/extension.rs, a data source with the user's data beside it (Served is about
--   a service over it).
-- - ApiFiles: src/api.rs, the files with the routes of an API. Toml has the documents and `merge_toml`, Merge
--   and Loaded are about what a merge and a loaded API keep. Router is the part of `define_api` that the two
--   APIs share: the handlers for the routes.
-- - Channel: src/data_source/buffered_channel.rs (Delivery is about what subscribers receive).
-- - Resolvable: src/resolvable.rs and the errors of src/error.rs.
-- - Sql: `SqlDataSource` of src/data_source/sql.rs. Client is the interface of the client of a database and
--   of the encodings, a parameter. Tables, Clauses and Postgres state what Postgres documents of the
--   statements. Text has numbers and lists as text, Defs the operations that change the data source,
--   Queries those that read it, Connect the configuration and `connect`, Migrations the sequence of
--   migrations. Sessions, LeafRows, Inserts, BlockRows, Blocks and Ends are about the session of the
--   client, Store, Sound and Reached about sequences of calls, Finds, Reads and Ranges about what is
--   read, Genesis about the first block, Service about a service on the database. Stream has the adapter of TCP
--   streams.
-- - Standalone: the whole of `run_standalone_service`, with the APIs that it defines before the loop
--   (Durable is about a service on a database).
-- - Tests: concrete parameters, and the theorems applied to them.
--
-- A method that takes `&mut self` returns the new state beside its result. A result is a value of
-- `Result`; where a method may also panic, its error is a `Fault`. Locks and `async` are left out:
-- every method holds the lock of the object for as long as it runs.
--
-- An index that a client chooses is a `usize`, and sums with it wrap at 2^64. Loops that read an
-- iterator to its end run on fuel: the length that the iterator announces and one, which is enough as
-- long as there are fewer than 2^64 - 1 objects.
--
-- Not modelled: what a query that fails does to an open transaction of the data source on SQL, nor
-- other clients of its database; the text export of metrics; the web server; the tests and the
-- example server.
pub mod Prelude
pub mod ApiFiles
pub mod AppendLog
pub mod LedgerLog
pub mod NodeTypes
pub mod Errors
pub mod Availability
pub mod FileSystem
pub mod Update
pub mod Metrics
pub mod Api
pub mod Status
pub mod Extension
pub mod Channel
pub mod Resolvable
pub mod Sql
pub mod Standalone
pub mod Tests
