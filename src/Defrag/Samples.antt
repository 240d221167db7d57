-- ===== src/Defrag/Samples.antt =====
-- A concrete ring and settings for the defragmentator, and frames to try it on.
use vs_slns.Base.{
  true, ◌≡◌, refl, is_ok, arith, ℕ, ◌-◌, ◌*◌, ◌++◌, List, [], ◌∷◌, ltb, leb, if◌then◌else◌, length,
  get_or, Status, err_ok, err_general, err_timeout, some,
}
use vs_slns.Defrag.Types.{
  Env, Bridge, CapturedFrame, Counters, UdpStat, Timeval, DfrgUdpMetadata, Now, zero_part, no_time,
}
use vs_slns.Defrag.RoundTrip.{RingLaws}
use vs_slns.Defrag.Consume.{Out}
use vs_slns.Defrag.Wait.{Wake, timed_out}

-- A ring over a log: an entry's address is its place in the log, and `queue` has the entries that
-- were not popped.
pub record LogRing : Type 0 where
  pub log : List (List ℕ)
  pub queue : List (List ℕ)
  pub capacity : ℕ

abbrev pub log_push : LogRing → List ℕ → ℕ → Status × ℕ × LogRing
log_push r bytes n =
    if ltb (length r.queue) r.capacity
    then (
      err_ok,
      length r.log,
      record r { log = r.log ++ (bytes ∷ []); queue = r.queue ++ (bytes ∷ []) },
    )
    else (err_general, 0, r)

abbrev pub pop_queue : LogRing → List (List ℕ) → Status × List ℕ × LogRing
pop_queue r [] = (err_timeout, [], r)
pop_queue r (x ∷ xs) = (err_ok, x, record r { queue = xs })

abbrev pub log_pop : LogRing → Status × List ℕ × LogRing
log_pop r = pop_queue r r.queue

abbrev pub log_copy : LogRing → ℕ → ℕ → Status × List ℕ
log_copy r room a =
    if leb (length (get_or r.log a [])) room then (err_ok, get_or r.log a []) else (err_general, [])

abbrev pub image : DfrgUdpMetadata → List ℕ
image m =
    m.hdr.tm.tv_sec ∷ m.hdr.tm.tv_usec ∷ m.hdr.udp_pkt_id ∷ m.mark_memory ∷ m.proto ∷ m.frag_offset
    ∷ m.data_length ∷ m.data_progress ∷ []

abbrev pub read_image : List ℕ → DfrgUdpMetadata
read_image bytes = record {
  hdr = record {
    tm = record { tv_sec = get_or bytes 0 0; tv_usec = get_or bytes 1 0 };
    udp_pkt_id = get_or bytes 2 0;
  };
  mark_memory = get_or bytes 3 0;
  proto = get_or bytes 4 0;
  frag_offset = get_or bytes 5 0;
  data_length = get_or bytes 6 0;
  data_progress = get_or bytes 7 0;
}

-- An environment whose `BUFFER_SIZE` is the argument; times are compared by their seconds.
abbrev pub env_of : ℕ → Env
env_of size = record {
  Ring = LogRing;
  push = λ r bytes n wake. log_push r bytes n;
  pop = λ r expected timeout wait. log_pop r;
  blindcopy = log_copy;
  Metr = List ℕ;
  advance = λ m x. x ∷ m;
  to_bytes = image;
  of_bytes = read_image;
  sizeof_metadata = 8;
  diff_ms_gt = λ a b n. ltb n ((b.tv_sec - a.tv_sec) * 1000);
  size_ethernet = 14;
  udp_layer_hdr_sz = 8;
  ethernet_mtu = 1500;
  ip_header = 20;
  buffer_size = size;
  marker_mem = 0x0A0B0C0D;
  ipv4_reassembly_timeout_msec = 30;
  udp_id_valid_until_timeout_msec = 5000;
  socket_def_timeout_sec = 2;
  uninitialised = 77;
}

pub log_pop_items :
    (r : LogRing) (q : List (List ℕ)) (x : List ℕ) (xs : List (List ℕ))
    → q ≡ x ∷ xs
    → ((pop_queue r q).0 ≡ err_ok) × ((pop_queue r q).1 ≡ x) × ((pop_queue r q).2.queue ≡ xs)
log_pop_items r [] x xs e = cc
log_pop_items r (y ∷ ys) x xs e = (refl, cc, cc)

pub log_push_items :
    (r : LogRing) (bytes : List ℕ) (n : ℕ)
    → is_ok (log_push r bytes n).0 ≡ true
    → (log_push r bytes n).2.queue ≡ r.queue ++ (bytes ∷ [])
log_push_items r bytes n e = ground arith

-- The log ring keeps what the packed ring promises.
unfoldable pub log_laws : (size : ℕ) → RingLaws (env_of size)
log_laws size = record {
  items = λ r. r.queue;
  push_items = λ r bytes n wake k e. log_push_items r bytes n e;
  pop_items = λ r x xs expected timeout wait e k. log_pop_items r r.queue x xs e;
  of_bytes-to_bytes = λ m. refl;
  length-to_bytes = λ m. refl;
}

abbrev pub env : Env
env = env_of 9000

abbrev pub no_counters : Counters
no_counters = record {
  l1_cache_ipv4s = 0;
  l1_cache_cached_ipv4s = 0;
  l1_cache_tried_to_defraged_ipv4 = 0;
  ipv4_bad_structure = 0;
  kernel_error = 0;
  bad_buffer_err = 0;
  unordered_ipv4 = 0;
  no_dfrg_id_overlaped = 0;
  no_dfrg_id_timeout = 0;
  no_dfrg_max_part_pos_exced = 0;
  no_dfrg_pylod_sz_exced = 0;
  no_dfrg_data_length_zero = 0;
  no_dfrg_less_pylod = 0;
  no_dfrg_eq_pylod = 0;
  no_dfrg_more_pylod = 0;
}

abbrev pub no_stat : UdpStat (List ℕ)
no_stat = record {
  total_udp_get_count = 0;
  total_udp_get_byte = 0;
  calc_throughput_udp_get_count = 0;
  calc_throughput_udp_get_bytes = 0;
  udp_get_data_alive_indicator = 0;
  t_udp_throughput = 0;
  t_end = no_time;
  udp_stat_5_sec_count = [];
  udp_stat_5_sec_bytes = [];
  udp_stat_10_sec_count = [];
  udp_stat_10_sec_bytes = [];
  udp_stat_40_sec_count = [];
  udp_stat_40_sec_bytes = [];
}

abbrev pub empty_ring : LogRing
empty_ring = record { log = []; queue = []; capacity = 64 }

-- The bridge as the program starts it, for a `BUFFER_SIZE`.
abbrev pub fresh : (size : ℕ) → Bridge (env_of size)
fresh size = record {
  ids = λ i. zero_part;
  gateway = 0;
  counters = no_counters;
  raw_xudp_cache = empty_ring;
  stat = no_stat;
}

abbrev pub at_second : ℕ → Timeval
at_second n = record { tv_sec = n; tv_usec = 0 }

-- An Ethernet frame with an IPv4 packet: its total length, its flags and offset field in two bytes,
-- its protocol, and what follows the 20 bytes of the header. The identification number is 7.
abbrev pub ipv4_bytes : ℕ → ℕ → ℕ → ℕ → List ℕ → List ℕ
ipv4_bytes total flags off proto rest =
    0 ∷ 0 ∷ 0 ∷ 0 ∷ 0 ∷ 0 ∷ 0 ∷ 0 ∷ 0 ∷ 0 ∷ 0 ∷ 0 ∷ 8 ∷ 0 ∷ 0x45 ∷ 0 ∷ 0 ∷ total ∷ 0 ∷ 7 ∷ flags
    ∷ off ∷ 64 ∷ proto ∷ 0 ∷ 0 ∷ 10 ∷ 0 ∷ 0 ∷ 1 ∷ 10 ∷ 0 ∷ 0 ∷ 2 ∷ rest

abbrev pub frame_of : List ℕ → ℕ → CapturedFrame
frame_of bytes n = record { bytes = λ i. get_or bytes i 0; caplen = length bytes; ts = at_second n }

-- A whole datagram with two bytes of payload.
abbrev pub small : CapturedFrame
small = frame_of (ipv4_bytes 30 0 0 17 (0 ∷ 9 ∷ 0 ∷ 9 ∷ 0 ∷ 10 ∷ 0 ∷ 0 ∷ 65 ∷ 66 ∷ [])) 100

-- A datagram of ten bytes in two fragments: eight bytes behind the UDP header, then two.
abbrev pub first_part : CapturedFrame
first_part =
    frame_of
      (ipv4_bytes 36 0x20 0 17
        (0 ∷ 9 ∷ 0 ∷ 9 ∷ 0 ∷ 18 ∷ 0 ∷ 0 ∷ 65 ∷ 66 ∷ 67 ∷ 68 ∷ 69 ∷ 70 ∷ 71 ∷ 72 ∷ []))
      100

abbrev pub last_part : CapturedFrame
last_part = frame_of (ipv4_bytes 22 0 2 17 (73 ∷ 74 ∷ [])) 100

-- The same whole datagram, but with TCP's protocol number.
abbrev pub tcp_frame : CapturedFrame
tcp_frame = frame_of (ipv4_bytes 30 0 0 6 (0 ∷ 9 ∷ 0 ∷ 9 ∷ 0 ∷ 10 ∷ 0 ∷ 0 ∷ 65 ∷ 66 ∷ [])) 100

abbrev pub no_out : Out
no_out = record { buf = λ i. 0; len = 0; hdr = record { tm = no_time; udp_pkt_id = 0 } }

abbrev pub noon : Now
noon = record { day = at_second 101; sec = 101 }

-- A schedule of one sleep that times out, with no frame meanwhile.
abbrev pub one_timeout : List Wake
one_timeout = record { frames = []; sleep = timed_out; now = some (at_second 101) } ∷ []
