-- ===== src/Store.antt =====
-- src/db: the tables and the repositories' operations on them.
pub mod Rows
pub mod Users
pub mod Usage
pub mod Logs
pub mod Routing
