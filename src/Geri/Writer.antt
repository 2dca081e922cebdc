-- ===== src/Geri/Writer.antt =====
-- The receiving side and the batch writer of geri/src/geri/main.py.
mod Defs
pub mod Conserve
pub mod Cancelled
pub mod Receive
pub mod Acks
mod Examples
pub use Defs.*
