-- ===== src/Udp.antt =====
-- src/udp: the UDP side.
pub mod Codec
pub mod PortTracker
pub mod SessionTable
pub mod Packet
pub mod Network
pub mod Socket
pub mod Manager
pub mod Relay
