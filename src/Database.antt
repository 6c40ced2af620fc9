-- ===== src/Database.antt =====
-- The queries of src/database/sqlite.rs on its tables. A table is its rows in the order in which they
-- are scanned; a query is read by the rules of SQL: a join is a loop in a loop.
pub mod Tables
pub mod Rows
pub mod Joins
pub mod Objects
pub mod Names
pub mod Links
mod Tests
