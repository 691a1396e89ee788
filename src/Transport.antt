-- ===== src/Transport.antt =====
-- The UDP transport of atemwire/transport.py.
pub mod Packet
pub mod Seq
pub mod Seen
pub mod Acknowledge
pub mod Delivery
pub mod Udp
pub mod Send
pub mod Retransmit
pub mod Session
pub mod Receive
pub mod Queue
pub mod Reader
pub mod Thread
pub mod Samples
mod Tests
