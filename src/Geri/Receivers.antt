-- ===== src/Geri/Receivers.antt =====
-- The database calls of the aggregator: geri/src/geri/db.py.
mod Defs
pub mod Ids
mod Examples
pub use Defs.*
