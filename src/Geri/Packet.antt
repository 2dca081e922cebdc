-- ===== src/Geri/Packet.antt =====
-- The binary CSI packet: geri/src/geri/parser.py, and the wire layout of docs/udp-wire-protocol.md.
mod Bytes
mod Parse
pub mod Accept
pub mod Fields
pub mod Layout
pub mod RoundTrip
mod Examples
unfoldable pub use Bytes.{from_le, join_colon}
unfoldable pub use Parse.{parse_packet, parse_body, unpack_header}
pub use Bytes.*
pub use Parse.*
