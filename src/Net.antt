-- ===== src/Net.antt =====
-- The network: net/.
pub mod Skbuff
pub mod Route
pub mod Device
pub mod Dev
pub mod Eth
pub mod Ip
pub mod Arp
