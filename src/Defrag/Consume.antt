-- ===== src/Defrag/Consume.antt =====
-- poped_defraged_packet: takes the next metadata from the packed ring and delivers its datagram,
-- or throws away what belongs to it.
pub mod Copy
use vs_slns.Base.{
  ℕ, zero, suc, ◌+◌, ◌-◌, true, false, not, ◌||◌, ◌==◌, ltb, leb, if◌then◌else◌, get_or, write,
  update, inc, inc_int, add64, Status, is_ok, Bool,
}
use vs_slns.Defrag.Types.{
  Env, Bridge, Counters, UdpPart, UdpStat, Now, RdyUdpHdr, DfrgUdpMetadata, zero_part,
}

-- The caller's buffer and variables behind `out_buf`, `out_len_B` and `out_hdr`.
pub record Out : Type 0 where
  pub buf : ℕ → ℕ
  pub len : ℕ
  pub hdr : RdyUdpHdr

abbrev pub count_bad_buffer : Counters → Counters
count_bad_buffer c = record c { bad_buffer_err = inc c.bad_buffer_err }

abbrev pub count_tried : Counters → Counters
count_tried c = record c { l1_cache_tried_to_defraged_ipv4 = inc c.l1_cache_tried_to_defraged_ipv4 }

-- Why a datagram is given up.
unfoldable pub count_incomplete : UdpPart → Counters → Counters
count_incomplete p c =
    if p.data_length == 0
    then record c { no_dfrg_data_length_zero = inc c.no_dfrg_data_length_zero }
    else if ltb p.data_progress p.data_length
    then record c { no_dfrg_less_pylod = inc c.no_dfrg_less_pylod }
    else if p.data_progress == p.data_length
    then record c { no_dfrg_eq_pylod = inc c.no_dfrg_eq_pylod }
    else record c { no_dfrg_more_pylod = inc c.no_dfrg_more_pylod }

module _ (env : Env) where
  -- `_ignore:` one more entry of the ring is popped and dropped.
  unfoldable pub ignore : Bridge env → Bridge env
  ignore b = record b { raw_xudp_cache = (env.pop b.raw_xudp_cache 0 1 false).2 }

  abbrev pub clear : Bridge env → ℕ → Bridge env
  clear b id = record b { ids = update b.ids id zero_part }

  abbrev pub recount : (Counters → Counters) → Bridge env → Bridge env
  recount g b = record b { counters = g b.counters }

  -- The throughput windows take the last second's counts.
  abbrev pub advance_windows : UdpStat env.Metr → UdpStat env.Metr
  advance_windows s =
      let count = s.calc_throughput_udp_get_count in
      let bytes = s.calc_throughput_udp_get_bytes in
      record s {
        udp_stat_5_sec_count = env.advance s.udp_stat_5_sec_count count;
        udp_stat_5_sec_bytes = env.advance s.udp_stat_5_sec_bytes bytes;
        udp_stat_10_sec_count = env.advance s.udp_stat_10_sec_count count;
        udp_stat_10_sec_bytes = env.advance s.udp_stat_10_sec_bytes bytes;
        udp_stat_40_sec_count = env.advance s.udp_stat_40_sec_count count;
        udp_stat_40_sec_bytes = env.advance s.udp_stat_40_sec_bytes bytes;
      }

  abbrev pub count_datagram : Now → ℕ → UdpStat env.Metr → UdpStat env.Metr
  count_datagram now len s = record s {
    t_end = now.day;
    total_udp_get_count = inc s.total_udp_get_count;
    total_udp_get_byte = add64 s.total_udp_get_byte len;
    calc_throughput_udp_get_count = inc s.calc_throughput_udp_get_count;
    calc_throughput_udp_get_bytes = add64 s.calc_throughput_udp_get_bytes len;
    udp_get_data_alive_indicator = inc_int s.udp_get_data_alive_indicator;
  }

  -- `_update_stat:` for a datagram of `len` bytes.
  unfoldable pub update_stat : Now → ℕ → UdpStat env.Metr → UdpStat env.Metr
  update_stat now len s =
      let counted = count_datagram now len s in
      let due = if ltb 0 s.t_udp_throughput then advance_windows counted else counted in
      if leb (s.t_udp_throughput + 1) now.sec
      then record due {
        t_udp_throughput = now.sec;
        calc_throughput_udp_get_count = 0;
        calc_throughput_udp_get_bytes = 0;
      }
      else counted

  abbrev pub with_stat : Now → ℕ → Bridge env → Bridge env
  with_stat now len b = record b { stat = update_stat now len b.stat }

  -- The loop's tests on the metadata of a fragment.
  abbrev pub bad_segment : Status → DfrgUdpMetadata → Bool
  bad_segment s seg =
      not (is_ok s) || (not (seg.mark_memory == env.marker_mem) || seg.data_progress == 0)

  -- The first fragment sets the caller's length and header.
  abbrev pub announce : ℕ → DfrgUdpMetadata → Out → Out
  announce ipos seg out =
      if ipos == 0 then record out { len = seg.data_length; hdr = seg.hdr } else out

  -- The loop over the fragments of a slot: `n` rounds from `ipos`. Whether it went through, the
  -- counters, and the caller's buffer.
  unfoldable pub copy_parts :
      ℕ → ℕ → env.Ring → UdpPart → ℕ → Counters → Out → Bool × Counters × Out
  copy_parts zero ipos ring p room c out = (true, c, out)
  copy_parts (suc n) ipos ring p room c out =
      let addr = get_or p.ring_addr ipos (0, 0) in
      let (s, bytes) = env.blindcopy ring env.sizeof_metadata addr.0 in
      let seg = env.of_bytes bytes in
      let out1 = announce ipos seg out in
      let (s', payload) = env.blindcopy ring (room - seg.frag_offset) addr.1 in
      let rest =
        copy_parts n (ipos + 1) ring p room (count_tried c)
          (record out1 { buf = write out1.buf seg.frag_offset payload }) in
      if bad_segment s seg
      then (false, count_bad_buffer c, out)
      else if ltb room seg.frag_offset
      then (false, count_bad_buffer c, out1)
      else if not (is_ok s')
      then (false, count_bad_buffer c, out1)
      else rest
