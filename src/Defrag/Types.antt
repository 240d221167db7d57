-- ===== src/Defrag/Types.antt =====
-- udp_defragmentator.h: the slots, the counters and the metadata of a fragment; and what the
-- defragmentator takes from outside: the packed ring, the float helpers, the macros, the settings.
use vs_slns.Base.{ℕ, ◌+◌, ◌*◌, ◌%◌, Bool, not, ◌&&◌, List, ◌==◌, replicate, Status}

-- `struct timeval`
pub record Timeval : Type 0 where
  pub tv_sec : ℕ
  pub tv_usec : ℕ

abbrev pub no_time : Timeval
no_time = record { tv_sec = 0; tv_usec = 0 }

-- `MAXIMUM_FRAGMENT_MADE`
abbrev pub maximum_fragment_made : ℕ
maximum_fragment_made = 10

-- `udp_part`, the slot of one identification number. `ring_addr` holds the ring addresses of the
-- metadata and of the payload of each fragment.
pub record UdpPart : Type 0 where
  pub ring_addr : List (ℕ × ℕ)
  pub last_pos : ℕ
  pub fragment_delay_msec : ℕ
  pub data_length : ℕ
  pub data_progress : ℕ
  pub tm : Timeval

abbrev pub no_addr : List (ℕ × ℕ)
no_addr = replicate maximum_fragment_made (0, 0)

-- `MEMSET_ZERO_O( &CCH )`
abbrev pub zero_part : UdpPart
zero_part = record {
  ring_addr = no_addr;
  last_pos = 0;
  fragment_delay_msec = 0;
  data_length = 0;
  data_progress = 0;
  tm = no_time;
}

-- `dirty` shares its eight bytes with the seconds of `tm`.
abbrev pub dirty : UdpPart → Bool
dirty p = not (p.tm.tv_sec == 0)

-- `CCH.data_length_B && CCH.data_progress_B == CCH.data_length_B`
abbrev pub complete : UdpPart → Bool
complete p = not (p.data_length == 0) && p.data_progress == p.data_length

-- `rdy_udp_hdr_t`
pub record RdyUdpHdr : Type 0 where
  pub tm : Timeval
  pub udp_pkt_id : ℕ

-- `dfrg_udp_metadata`
pub record DfrgUdpMetadata : Type 0 where
  pub hdr : RdyUdpHdr
  pub mark_memory : ℕ
  pub proto : ℕ
  pub frag_offset : ℕ
  pub data_length : ℕ
  pub data_progress : ℕ

-- The counters of `defraged_udps_t`, each an `unsigned long`.
pub record Counters : Type 0 where
  pub l1_cache_ipv4s : ℕ
  pub l1_cache_cached_ipv4s : ℕ
  pub l1_cache_tried_to_defraged_ipv4 : ℕ
  pub ipv4_bad_structure : ℕ
  pub kernel_error : ℕ
  pub bad_buffer_err : ℕ
  pub unordered_ipv4 : ℕ
  pub no_dfrg_id_overlaped : ℕ
  pub no_dfrg_id_timeout : ℕ
  pub no_dfrg_max_part_pos_exced : ℕ
  pub no_dfrg_pylod_sz_exced : ℕ
  pub no_dfrg_data_length_zero : ℕ
  pub no_dfrg_less_pylod : ℕ
  pub no_dfrg_eq_pylod : ℕ
  pub no_dfrg_more_pylod : ℕ

-- The part of `pb->stat` that the consumer keeps. `Metr` is the type of the throughput windows.
pub record UdpStat (Metr : Type 0) : Type 0 where
  pub total_udp_get_count : ℕ
  pub total_udp_get_byte : ℕ
  pub calc_throughput_udp_get_count : ℕ
  pub calc_throughput_udp_get_bytes : ℕ
  pub udp_get_data_alive_indicator : ℕ
  pub t_udp_throughput : ℕ
  pub t_end : Timeval
  pub udp_stat_5_sec_count : Metr
  pub udp_stat_5_sec_bytes : Metr
  pub udp_stat_10_sec_count : Metr
  pub udp_stat_10_sec_bytes : Metr
  pub udp_stat_40_sec_count : Metr
  pub udp_stat_40_sec_bytes : Metr

-- What `gettimeofday` and `time` say when a datagram was delivered.
pub record Now : Type 0 where
  pub day : Timeval
  pub sec : ℕ

-- What the file takes from other libraries and from the settings.
pub record Env : Type 1 where
  -- `cbuf_pked_t`: the bytes to store, the size to reserve, whether readers are woken; the status,
  -- the address of what was stored, the new ring.
  pub Ring : Type 0
  pub push : Ring → List ℕ → ℕ → Bool → Status × ℕ × Ring
  -- The size that is expected (0 for any), the timeout, whether to wait for a wake-up.
  pub pop : Ring → ℕ → ℕ → Bool → Status × List ℕ × Ring
  -- The room at the destination, and the address.
  pub blindcopy : Ring → ℕ → ℕ → Status × List ℕ
  -- `cbuf_m_advance`
  pub Metr : Type 0
  pub advance : Metr → ℕ → Metr
  -- The bytes of a `dfrg_udp_metadata` in memory, and back.
  pub to_bytes : DfrgUdpMetadata → List ℕ
  pub of_bytes : List ℕ → DfrgUdpMetadata
  pub sizeof_metadata : ℕ
  -- `timeval_diff_ms( a , b ) > n`, on doubles.
  pub diff_ms_gt : Timeval → Timeval → ℕ → Bool
  -- Macros of the build: header sizes, MTU, `BUFFER_SIZE`, `MSB_MARKERS[ 4 ]`.
  pub size_ethernet : ℕ
  pub udp_layer_hdr_sz : ℕ
  pub ethernet_mtu : ℕ
  pub ip_header : ℕ
  pub buffer_size : ℕ
  pub marker_mem : ℕ
  -- `CFG()`; the settings are not negative.
  pub ipv4_reassembly_timeout_msec : ℕ
  pub udp_id_valid_until_timeout_msec : ℕ
  pub socket_def_timeout_sec : ℕ
  -- What a field of the stack holds that the source does not initialise.
  pub uninitialised : ℕ

-- `pb->comm.preq` and `pb->stat`: the slots, the semaphore's value, the counters, the packed ring.
pub record Bridge (env : Env) : Type 0 where
  pub ids : ℕ → UdpPart
  pub gateway : ℕ
  pub counters : Counters
  pub raw_xudp_cache : env.Ring
  pub stat : UdpStat env.Metr

-- What libpcap hands to the callback: the bytes behind `frame_bytes`, of which `caplen` were
-- captured, and the capture time.
pub record CapturedFrame : Type 0 where
  pub bytes : ℕ → ℕ
  pub caplen : ℕ
  pub ts : Timeval

-- One `u_char` of the frame.
abbrev pub byte : CapturedFrame → ℕ → ℕ
byte f i = f.bytes i % 256

-- `ntohs( *( uint16_t * )( frame_bytes + i ) )`
abbrev pub be16 : CapturedFrame → ℕ → ℕ
be16 f i = byte f i * 256 + byte f (i + 1)
