-- ===== src/Freki/Rooms.antt =====
-- The rooms: freki/src/freki/routers/rooms.py.
mod Defs
pub mod Integrity
pub mod Atomic
mod Examples
pub use Defs.*
