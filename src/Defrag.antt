-- ===== src/Defrag.antt =====
-- Protocol_Bridge/src/udp_defragmentator.c and its header: the capture callback that files every
-- IPv4 fragment under its identification number, and the consumer that puts datagrams together.
pub mod Types
pub mod Frame
pub mod Produce
pub mod Wait
pub mod Consume
pub mod Pop
pub mod RoundTrip
mod Samples
mod Tests
mod Witnesses
mod PartsWitnesses
