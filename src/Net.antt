-- ===== src/Net.antt =====
-- kernel/net: the network stack, from Ethernet frames to QTLS records.
pub mod Error
pub mod Eth
pub mod Ipv4
pub mod Udp
pub mod Qtls
pub mod Slots
pub mod Device
pub mod Arp
pub mod Stack
mod Tests
