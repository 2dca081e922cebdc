-- ===== src/Geri.antt =====
-- Geri, the UDP aggregator (geri/src/geri): the packet parser, the socket protocol and the writer.
pub mod Packet
pub mod Writer
pub mod Receivers
