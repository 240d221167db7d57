-- ===== src/Defrag/Produce.antt =====
-- defragment_pcap_data, second half: what the producer does with a whole datagram, a first fragment
-- and a later fragment. `undefined` is a store outside `ring_addr`.
pub mod Cases
pub mod Slots
pub mod Errors
pub mod Overrun
pub mod Whole
pub mod Wakes
use vs_slns.Base.{
  ℕ, ◌+◌, ◌-◌, ◌*◌, ◌/◌, true, false, not, ◌&&◌, List, none, some, ◌==◌, ltb, leb, if◌then◌else◌,
  set, slice, update, u8, u16, sub16, inc, Status, err_general, err_canceled, is_ok, Outcome,
  returns, undefined,
}
use vs_slns.Defrag.Types.{
  Env, Bridge, CapturedFrame, Counters, UdpPart, DfrgUdpMetadata, Timeval, maximum_fragment_made,
  no_addr, zero_part, dirty, complete,
}
use vs_slns.Defrag.Frame.{Fields, Datagram, sizeof_udphdr}
use vs_slns.Defrag.Frame

abbrev pub count_bad : Counters → Counters
count_bad c = record c { ipv4_bad_structure = inc c.ipv4_bad_structure }

abbrev pub count_kernel : Counters → Counters
count_kernel c = record c { kernel_error = inc c.kernel_error }

abbrev pub count_cached : Counters → Counters
count_cached c = record c { l1_cache_cached_ipv4s = inc c.l1_cache_cached_ipv4s }

module _ (env : Env) where
  -- A slot with the counters, as the checks at the head of cases 2 and 3 change them.
  abbrev pub Slot : Type 0
  Slot = UdpPart × Counters

  -- The identification number came back too late.
  unfoldable pub drop_old : Timeval → Slot → Slot
  drop_old now (p, c) =
      if env.diff_ms_gt now p.tm env.udp_id_valid_until_timeout_msec
      then (zero_part, record c { no_dfrg_id_timeout = inc c.no_dfrg_id_timeout })
      else (p, c)

  -- There is no room for one more fragment.
  unfoldable pub drop_full : Slot → Slot
  drop_full (p, c) =
      if leb maximum_fragment_made p.last_pos
      then (zero_part, record c { no_dfrg_max_part_pos_exced = inc c.no_dfrg_max_part_pos_exced })
      else (p, c)

  -- More came in than the datagram holds.
  unfoldable pub drop_overfed : Slot → Slot
  drop_overfed (p, c) =
      if not (p.data_length == 0) && ltb p.data_length p.data_progress
      then (zero_part, record c { no_dfrg_pylod_sz_exced = inc c.no_dfrg_pylod_sz_exced })
      else (p, c)

  -- `if ( !CCH.dirty ) CCH.tm = udp_spec.hdr.tm`
  abbrev pub stamp : Timeval → Slot → Slot
  stamp now (p, c) = (if dirty p then p else record p { tm = now }, c)

  unfoldable pub refresh : Timeval → Slot → Slot
  unfolding drop_old drop_full drop_overfed
  refresh now (p, c) =
      stamp now (if dirty p then drop_overfed (drop_full (drop_old now (p, c))) else (p, c))

  -- Both pushes of a fragment, the metadata first; the second only if the first succeeds. The last
  -- status, the two addresses, the ring.
  unfoldable pub push_both : env.Ring → DfrgUdpMetadata → List ℕ → ℕ → Status × (ℕ × ℕ) × env.Ring
  push_both ring spec payload room =
      let (s, hdr_addr, ring1) = env.push ring (env.to_bytes spec) env.sizeof_metadata false in
      let (s', pyld_addr, ring2) = env.push ring1 payload room true in
      if is_ok s then (s', (hdr_addr, pyld_addr), ring2) else (s, (hdr_addr, 0), ring1)

  -- A push that fails clears the slot, counts a kernel error and gives up with its status.
  unfoldable pub push_failed : Bridge env → ℕ → Counters → Status → env.Ring → Bridge env
  push_failed b id c s r = record b {
    ids = update b.ids id zero_part;
    counters = count_kernel c;
    raw_xudp_cache = r;
  }

  -- `sem_post` if the datagram is complete.
  abbrev pub post_if_complete : UdpPart → ℕ → ℕ
  post_if_complete p g = if complete p then g + 1 else g

  -- The metadata that every case builds.
  abbrev pub metadata : CapturedFrame → Fields → ℕ → ℕ → ℕ → DfrgUdpMetadata
  metadata f h off len progress = record {
    hdr = record { tm = f.ts; udp_pkt_id = h.udp_pkt_id };
    mark_memory = env.marker_mem;
    proto = 17;
    frag_offset = off;
    data_length = len;
    data_progress = progress;
  }

  abbrev pub count_overlap : UdpPart → Counters → Counters
  count_overlap p c =
      if dirty p then record c { no_dfrg_id_overlaped = inc c.no_dfrg_id_overlaped } else c

  -- The slot of a datagram that came whole, of `len` bytes.
  abbrev pub whole_slot : UdpPart → Timeval → ℕ → UdpPart
  whole_slot p now len = record p {
    ring_addr = no_addr;
    last_pos = 0;
    fragment_delay_msec = u16 env.ipv4_reassembly_timeout_msec;
    data_length = len;
    data_progress = len;
    tm = now;
  }

  -- Case 1: a datagram that is not fragmented.
  unfoldable pub whole_packet :
      Bridge env → CapturedFrame → Fields → Datagram → Outcome (Status × Bridge env)
  unfolding push_failed
  whole_packet b f h d =
      let len = sub16 d.udp_dg_len sizeof_udphdr in
      let c = count_overlap (b.ids h.udp_pkt_id) b.counters in
      let (s, _, ring) =
        push_both b.raw_xudp_cache (metadata f h env.uninitialised len len)
          (slice f.bytes d.payload len) len in
      if is_ok s
      then returns (
        s,
        record b {
          ids = update b.ids h.udp_pkt_id (whole_slot (b.ids h.udp_pkt_id) f.ts len);
          gateway = b.gateway + 1;
          counters = count_cached c;
          raw_xudp_cache = ring;
        },
      )
      else returns (s, push_failed b h.udp_pkt_id c s ring)

  -- `MAX( 1 , ( uint16_t )ceil( ( SIZE_ETHERNET + 8 + length ) / ( ETHERNET_MTU - IP_header ) ) )`
  -- reassembly timeouts, kept in 16 bits.
  abbrev pub expected_delay : ℕ → ℕ
  expected_delay len =
      let per_fragment = env.ethernet_mtu - env.ip_header in
      let parts =
        u16 ((env.size_ethernet + sizeof_udphdr + len + per_fragment - 1) / per_fragment) in
      u16 ((if ltb 1 parts then parts else 1) * env.ipv4_reassembly_timeout_msec)

  abbrev pub count_unordered : UdpPart → Counters → Counters
  count_unordered p c =
      if p.last_pos == 0 then c else record c { unordered_ipv4 = inc c.unordered_ipv4 }

  -- The slot after the first fragment was stored: `len` bytes are due, `progress` of them came.
  abbrev pub first_slot : UdpPart → ℕ → ℕ → ℕ × ℕ → UdpPart
  first_slot p len progress addr = record p {
    ring_addr = set p.ring_addr 0 addr;
    fragment_delay_msec = expected_delay len;
    data_length = len;
    data_progress = u16 (p.data_progress + progress);
  }

  -- Case 2: the first fragment, which carries the UDP header.
  unfoldable pub first_fragment :
      Bridge env → CapturedFrame → Fields → Datagram → Outcome (Status × Bridge env)
  unfolding push_failed
  first_fragment b f h d =
      let len = sub16 d.udp_dg_len sizeof_udphdr in
      let progress = sub16 h.frag_len sizeof_udphdr in
      let part = b.ids h.udp_pkt_id in
      let (p, c) = refresh f.ts (part, count_unordered part b.counters) in
      let (s, addr, ring) =
        push_both b.raw_xudp_cache (metadata f h 0 len progress) (slice f.bytes d.payload progress)
          progress in
      if is_ok s
      then returns (
        s,
        record b {
          ids = update b.ids h.udp_pkt_id (first_slot p len progress addr);
          gateway = post_if_complete (first_slot p len progress addr) b.gateway;
          counters = count_cached c;
          raw_xudp_cache = ring;
        },
      )
      else returns (s, push_failed b h.udp_pkt_id c s ring)

  -- The slot after a later fragment was stored, behind those that it has.
  abbrev pub later_slot : UdpPart → ℕ → ℕ × ℕ → UdpPart
  later_slot p progress addr = record p {
    ring_addr = set p.ring_addr (p.last_pos + 1) addr;
    last_pos = u8 (p.last_pos + 1);
    fragment_delay_msec =
        if p.fragment_delay_msec == 0
        then u16 env.udp_id_valid_until_timeout_msec
        else p.fragment_delay_msec;
    data_progress = u16 (p.data_progress + progress);
  }

  -- A later fragment that cannot be right clears the slot.
  abbrev pub reject_fragment : Bridge env → ℕ → Bridge env
  reject_fragment b id = record b {
    ids = update b.ids id zero_part;
    counters = count_bad b.counters;
  }

  -- Case 3: a later fragment. Its address goes to `ring_addr[ last_pos + 1 ]`.
  unfoldable pub other_fragment :
      Bridge env → CapturedFrame → Fields → Datagram → Outcome (Status × Bridge env)
  unfolding push_failed
  other_fragment b f h d =
      let part = b.ids h.udp_pkt_id in
      let (p, c) = refresh f.ts (part, b.counters) in
      let (s, addr, ring) =
        push_both b.raw_xudp_cache (metadata f h (h.frag_offset - sizeof_udphdr) 0 h.frag_len)
          (slice f.bytes d.payload h.frag_len) h.frag_len in
      if leb h.frag_offset sizeof_udphdr
      then returns (err_general, reject_fragment b h.udp_pkt_id)
      else if ltb env.buffer_size (part.last_pos * env.ethernet_mtu + h.frag_len)
      then returns (err_general, reject_fragment b h.udp_pkt_id)
      else if not (is_ok s)
      then returns (s, push_failed b h.udp_pkt_id c s ring)
      else if ltb (p.last_pos + 1) maximum_fragment_made
      then returns (
        s,
        record b {
          ids = update b.ids h.udp_pkt_id (later_slot p h.frag_len addr);
          gateway = post_if_complete (later_slot p h.frag_len addr) b.gateway;
          counters = count_cached c;
          raw_xudp_cache = ring;
        },
      )
      else undefined

  abbrev pub count_ipv4 : Counters → Counters
  count_ipv4 c = record c { l1_cache_ipv4s = inc c.l1_cache_ipv4s }

  -- The three cases, in the source's order.
  unfoldable pub store_fragment :
      Bridge env → CapturedFrame → Fields → Datagram → Outcome (Status × Bridge env)
  store_fragment b f h d =
      if h.frag_offset == 0 && not h.more
      then whole_packet b f h d
      else if h.frag_offset == 0 && h.more
      then first_fragment b f h d
      else if not (h.frag_offset == 0)
      then other_fragment b f h d
      else returns (err_canceled, b)

  -- The callback for one captured frame.
  unfoldable pub defragment_pcap_data : Bridge env → CapturedFrame → Outcome (Status × Bridge env)
  unfolding store_fragment
  defragment_pcap_data b f = elim (Frame.frame_fields env f) [
    | none ↦ returns (err_canceled, record b { counters = count_bad b.counters })
    | some h ↦
        let b' = record b { counters = count_ipv4 b.counters } in
        elim (Frame.datagram env f h) [
          | none ↦ returns (err_canceled, record b' { counters = count_bad b'.counters })
          | some d ↦ store_fragment b' f h d
        ]
  ]
