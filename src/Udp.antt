-- ===== src/Udp.antt =====
-- crates/core/src/bcudp: the packets of the UDP transport, their encryption and their codec.
-- An `i32` is its bit pattern. The XML of a discovery packet is written and read by quick_xml
-- through derived code, and the checksum computed by crc32fast: both are parameters.
pub mod Model
pub mod Crypto
pub mod Ser
pub mod De
pub mod Codex
pub mod RoundTrip
pub mod Faults
mod Examples
