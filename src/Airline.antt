-- ===== src/Airline.antt =====
-- src/airline: the process that simulates the radio and the MAC layer for every node.
pub mod Dictionary
pub mod Nodeinfo
pub mod Config
pub mod Stats
pub mod Spawn
pub mod Iface
pub mod Manager
pub mod Propagation
pub mod Startup
pub mod PowerLine
pub mod Main
