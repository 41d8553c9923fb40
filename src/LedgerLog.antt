-- ===== src/LedgerLog.antt =====
-- src/data_source/ledger_log.rs: a caching append log for ledger objects. `Iter` is the iterator,
-- `Defs` the log and its operations; the other children prove what holds of them.
pub mod Iter
pub mod Defs
pub mod Inv
pub mod Contents
pub mod Reads
pub mod Stream
pub mod Broadcast
pub mod Reach
