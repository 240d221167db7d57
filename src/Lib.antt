-- ===== src/Lib.antt =====
-- Protocol bridge: UDP packets are captured, put together from their fragments, and sent on over TCP.
-- This library models the parts of Protocol_Bridge that decide what happens to a packet.
--
--   Base           shared helpers: tests, lists, memory, machine words, status codes, outcomes.
--   Defrag         Protocol_Bridge/src/udp_defragmentator.c. The slot of an identification number is
--                  UdpPart (udp_part), the counters are Counters (defraged_udps_t), and Bridge is
--                  what both sides share. Defrag.Frame and Defrag.Produce are defragment_pcap_data:
--                  the header checks, then the three cases of a whole datagram, a first fragment and a
--                  later one. Defrag.Wait, Defrag.Consume and Defrag.Pop are poped_defraged_packet:
--                  its waiting loops, its copying loop and statistics, and the whole.
--   BridgeConfig   Protocol_Bridge/src/BridgeConfig.c: the copy of a bridge's settings and the
--                  comparison that finds out what a new file changed.
--
--   PacketMgr      Protocol_Bridge/src/packet_mngr.c. PktState is the life of a packet (pkt_state).
--                  PacketMgr.Send is send_segment_itm: one connection (Write), the known route and
--                  the search over all bridges (Routes), the whole with its statistics (Whole);
--                  Traffic says what a call does on the network, Kept and Delivery what
--                  becomes of the packet.
--                  PacketMgr.Store is store_segment_item, remap_storage_data and
--                  discharge_persistent_storage_data; Once and States are about what becomes
--                  of a packet. PacketMgr.Pressure is
--                  sampling_filled_segment_count. PacketMgr.Rounds is
--                  process_filled_tcp_segment_proc, a Turn a round of its loop: History and
--                  Quiet are about its sleeps, Ledger says what it owes of the segments
--                  and the gateway, Accounts that it does so.
--                  PacketMgr.Evacuate is the countdown of
--                  evacuate_long_time_sediment_segment_proc.
--   PersistCache   Protocol_Bridge/src/persistant_cache_mgr.c. Answers is
--                  persistant_cache_mngr_relay_packet, Loop the inner loop of
--                  discharge_persistant_cache_proc. Its outer loop and
--                  try_stop_sending_from_cach_mgr are in Gateway.
--   Forward        Protocol_Bridge/src/async_tcp_forward.c. Forward is the stamping of one datagram
--                  in many_tcp_out_thread_proc, Forward.Publish its inner loop. Field is about the
--                  field of the timestamp, Payload about the braces, Messages about a run.
--   Shutdown       Protocol_Bridge/src/Bridge.c: try_stoping_sending_from_bridge (Locks) and
--                  bridge_insure_input_bus_stoping (Waits). Others is what the other threads do.
--   Connected      Protocol_Bridge/src/Bridge.c: tcp_state_changed, against the connections that
--                  report to it.
--   Config         Protocol_Bridge/src/config.c: Merge is what config_loader does with the settings it
--                  read, Apply a round of config_executer with stop_, apply_, remove_ and
--                  add_new_protocol_bridge; Marks is about the merge, Listed, Applied and
--                  Entries about the array ABs after a round, Reload about both in a row, Removal about a
--                  removal and its stop, Ids has their lemmas.
--                  What a bridge starts when settings are applied belongs to Bridge.c and is counted.
--   Gateway        the gateway between memory and disk: the threads of packet_mngr.c and
--                  persistant_cache_mgr.c that share it, one access a Move. Inv is the invariant,
--                  Promises and Lost what follows.
--   KernelUdp      the threads of Protocol_Bridge/src/_2_krnl_udp_counter.c,
--                  _6_one2one_krnl2krnl_SF.c and _7_many2many_krnl2krnl_SF.c, which read sockets:
--                  their common loop in KernelUdp, what they do with a datagram in Threads. Watching
--                  is about select, Publishes and Overruns about the messages, Counts, Steady and Rates
--                  about the statistics.
--   Capture        stablish_pcap_udp_connection of Protocol_Bridge/src/async_pcap_udp_store.c against
--                  quit_interrupt_dist_one2one_pcap2krnl_SF of _3_one2one_pcap2krnl_SF.c: a Move is an
--                  access of the handle they share.
--   Mpmc           tst_MPMC_ring_buffer/main.c: the ring of the multi-producer experiment. A Move is
--                  one shared access of one thread; Slots is about the mask, Inv the invariant, Moves
--                  and Steps that it is kept, Queue, Lossless and Capacity what the ring promises.
--
-- The producer and the consumer of Defrag share the packed ring, which is not part of the repository:
-- Env has its operations as parameters, with the float helper timeval_diff_ms, the macros and the
-- settings; RingLaws says what a ring promises where a theorem follows a datagram through it. The slot
-- locks are empty macros in this build; the consumer's decisions after a wait run
-- without a switch to the producer, and the producer runs where the consumer waits: a schedule (Wake)
-- says which frames come in during each sleep and how the sleep ends. A call that is still waiting at
-- the end of its schedule has the outcome blocks, a store outside ring_addr the outcome undefined.
-- Counters wrap at 2^64, the 16-bit fields at 2^16, the position at 2^8. Settings are not negative. The
-- out pointers of poped_defraged_packet are not null, as in its only caller. A memory behind a pointer
-- is a function from offsets to bytes: the caller's buffer of poped_defraged_packet, of which the source
-- gives the ring no size, has no end here. The loops over fragments and settings are structural, so that no
-- fuel is used. Forward has fuel for its loop over the zero bytes: one more than the bytes of the field.
-- What gmtime_r returns is an argument. In Shutdown the guard of the waiting loops is an argument, and
-- the calls of tcps_close are counted. Mpmc takes the atomic accesses in one order (sequential
-- consistency), and its words wrap at 2^64; Gateway and Capture do so with the accesses of their
-- threads, and what a thread does with the packets between two accesses changes none of them. KernelUdp
-- has the answers of select, recvfrom and the distributor as data: select leaves in its set the sockets
-- that it was given and that are ready. A datagram is a list of bytes, and a store behind the buffer has
-- the outcome undefined; its counters wrap as those of Defrag. PacketMgr.Rounds takes what the iteration over a
-- segment comes to as data.
--
-- BridgeConfig has strcmp and memcmp as Boolean tests with their documented meaning (Laws).
--
-- PacketMgr takes the network (tcps_write, tcps_close), the sliding rate windows, the name comparison
-- and the two distributors in front of the disk as parameters; a call has one reading of the clocks.
-- The packet manager is what the persistent cache publishes to, and Storage is what it stores with.
-- The lock is an argument, its result. Connections are numbers, with the main connection of a shared
-- one under this. The rates from which the time to fill is computed are doubles: the tests on it are an
-- argument.
--
-- Not modelled: the segments of the segment manager and the release of half-filled ones, the set-up of
-- threads and sockets, the JSON reader of the configuration, the terminal interface, and the test
-- programs beside Protocol_Bridge except the ring.
pub mod Base
pub mod Defrag
pub mod BridgeConfig
pub mod Forward
pub mod Shutdown
pub mod Capture
pub mod Connected
pub mod Mpmc
pub mod Config
pub mod Gateway
pub mod KernelUdp
pub mod PacketMgr
pub mod PersistCache
