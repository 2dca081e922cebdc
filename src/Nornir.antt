-- ===== src/Nornir.antt =====
-- Nornir, the training daemon (nornir/src/nornir).
pub mod Windows
pub mod Train
pub mod Client
pub mod Daemon
