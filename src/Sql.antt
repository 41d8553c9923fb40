-- ===== src/Sql.antt =====
-- `SqlDataSource` of src/data_source/sql.rs: the data source on a Postgres database. Client, Tables, Clauses
-- and Postgres have what is taken from the database, Text, Defs, Queries, Connect and Migrations the code,
-- and the other children are about it.
pub mod Client
pub mod Text
pub mod Defs
pub mod Queries
pub mod Connect
pub mod Tables
pub mod Clauses
pub mod Postgres
pub mod Sessions
pub mod LeafRows
pub mod Inserts
pub mod BlockRows
pub mod Blocks
pub mod Ends
pub mod Store
pub mod Stream
pub mod Service
pub mod Sound
pub mod Reached
pub mod Finds
pub mod Reads
pub mod Ranges
pub mod Genesis
pub mod Migrations
