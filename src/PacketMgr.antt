-- ===== src/PacketMgr.antt =====
-- Protocol_Bridge/src/packet_mngr.c: what happens to a packet after it was put together. It is sent
-- over TCP, or stored on disk, sent again from there, or moved to a file of its own.
pub mod Types
pub mod Send
pub mod Store
pub mod Pressure
pub mod Evacuate
pub mod Rounds
mod Tests
