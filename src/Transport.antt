-- ===== src/Transport.antt =====
-- crates/core/src/bc_protocol/connection/udpsource.rs: the reliable layer over UDP packets.
-- `Source.run` is one turn of the loop of `UdpPayloadInner`, given the branch of `select!` that is
-- ready. What it feeds to the socket and to the application is kept in lists, which are the
-- channels' contents from the start. Counters and packet ids are `u32` and wrap.
pub mod Map
pub mod Latency
pub mod Source
pub mod Deliver
pub mod Order
pub mod Ack
pub mod Chunks
mod Examples
