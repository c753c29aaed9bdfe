-- ===== src/Commline.antt =====
-- src/commline: the library by which the processes of a simulation exchange messages, and the
-- capture files that a stack writes.
pub mod Message
pub mod Crc
pub mod Pcap
pub mod Address
pub mod Usock
pub mod Stack
pub mod Network
pub mod Msgq
mod Tests
