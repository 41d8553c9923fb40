-- ===== src/FileSystem.antt =====
-- src/data_source/fs.rs: the data source that is backed by the local file system. `Index` has the
-- indices by hash, `Range` the streams over a range, `Defs` the data source.
pub mod Index
pub mod Range
pub mod Defs
pub mod Queries
pub mod Open
pub mod Stored
pub mod Transactions
pub mod Served
pub mod Placed
pub mod Proposals
pub mod Flatten
pub mod Reopen
pub mod Slice
