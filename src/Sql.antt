-- ===== src/Sql.antt =====
-- The SQLite databases behind database/sql: rows, the statements' interface, and what is assumed.
pub mod Rows
pub mod Engine
pub mod Laws
pub mod Memory
pub mod Filters
pub mod Calls
pub mod Keys
