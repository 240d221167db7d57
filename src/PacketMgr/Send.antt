-- ===== src/PacketMgr/Send.antt =====
-- send_segment_itm: one packet is tried over TCP.
pub mod Write
pub mod Routes
pub mod Whole
pub mod Traffic
pub mod Kept
pub mod Delivery
