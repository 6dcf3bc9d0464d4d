-- ===== src/Store.antt =====
-- internal/store: the SQLite database as a value. A query is what its text says of the rows.
pub mod Rows
pub mod Merge
pub mod Complete
pub mod Options
pub mod Pruning
pub mod Library
pub mod Bodies
pub mod Edit
pub mod Switches
pub mod History
mod Tests
