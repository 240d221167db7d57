-- ===== src/PacketMgr/Send/Whole.antt =====
-- send_segment_itm as a whole: its refusals, the two methods, and the statistics at its end.
use vs_slns.Base.{
  ℕ, ◌+◌, ◌%◌, Bool, true, false, not, ◌&&◌, Option, none, some, ◌==◌, ltb, leb, if◌then◌else◌,
  update, length, inc, inc_int, add64, Status, err_ok, err_canceled, err_timeout,
  err_too_many_attempt, err_no_peer, is_timeout,
}
use vs_slns.PacketMgr.Types.{
  Env, Packet, TcpStat, Mgr, Clock, Sent, Route, is_sent, is_on_l2_ram, is_settled, is_from_file,
}
use vs_slns.PacketMgr.Send.Routes.{Tried, fast, search_abs}

abbrev pub is_canceled : Status → Bool
is_canceled Status.err_canceled = true
is_canceled _ = false

module _ (env : Env) where
  -- The low byte of the time, by which a packet from a file is tried once in a second.
  abbrev pub too_soon : Clock → Packet env → Bool
  too_soon clk p =
      is_from_file p.state
      && (not (p.cool_down_attempt == 0) && p.cool_down_attempt == clk.sec % 256)

  abbrev pub note_attempt : Clock → Packet env → Packet env
  note_attempt clk p =
      if is_from_file p.state then record p { cool_down_attempt = clk.sec % 256 } else p

  -- The time of the packet that is tried last, out of a file and out of memory.
  abbrev pub note_time : Packet env → Mgr env → Mgr env
  note_time p m =
      if is_from_file p.state
      then record m { latest_memmap_time = p.tm }
      else if is_on_l2_ram p.state
      then record m { latest_huge_memory_time = p.tm }
      else m

  -- Nothing is tried: the name is known, but its connection is down, or no connection is up.
  abbrev pub untried : Mgr env → Packet env → Tried env
  untried m p = record {
    ended = false;
    sent = record { status = err_canceled; mgr = m; pkt = p };
    pb = none;
  }

  unfoldable pub route : Clock → Mgr env → Packet env → ℕ → Tried env
  route clk m p len = elim (m.map_tcp_socket p.tcp_name) [
    | Route.connected c ↦ fast env clk m p len c
    | Route.disconnected c ↦ untried m p
    | Route.absent ↦
        if m.connected_tcp_out == 0
        then untried m p
        else search_abs env clk m p len none err_canceled m.abs
  ]

  abbrev pub count_put : ℕ → TcpStat env → TcpStat env
  count_put sz s = record s {
    total_tcp_put_count = inc s.total_tcp_put_count;
    total_tcp_put_byte = add64 s.total_tcp_put_byte sz;
    calc_throughput_tcp_put_count = inc s.calc_throughput_tcp_put_count;
    calc_throughput_tcp_put_bytes = add64 s.calc_throughput_tcp_put_bytes sz;
    tcp_send_data_alive_indicator = inc_int s.tcp_send_data_alive_indicator;
  }

  abbrev pub advance_windows : TcpStat env → TcpStat env
  advance_windows s =
      let count = s.calc_throughput_tcp_put_count in
      let bytes = s.calc_throughput_tcp_put_bytes in
      record s {
        tcp_stat_5_sec_count = env.advance s.tcp_stat_5_sec_count count;
        tcp_stat_5_sec_bytes = env.advance s.tcp_stat_5_sec_bytes bytes;
        tcp_stat_10_sec_count = env.advance s.tcp_stat_10_sec_count count;
        tcp_stat_10_sec_bytes = env.advance s.tcp_stat_10_sec_bytes bytes;
        tcp_stat_40_sec_count = env.advance s.tcp_stat_40_sec_count count;
        tcp_stat_40_sec_bytes = env.advance s.tcp_stat_40_sec_bytes bytes;
      }

  abbrev pub roll_second : Clock → TcpStat env → TcpStat env
  roll_second clk s =
      if leb (s.t_tcp_throughput + 1) clk.sec
      then record (if ltb 0 s.t_tcp_throughput then advance_windows s else s) {
        t_tcp_throughput = clk.sec;
        calc_throughput_tcp_put_count = 0;
        calc_throughput_tcp_put_bytes = 0;
      }
      else s

  abbrev pub on_stat : Option ℕ → (TcpStat env → TcpStat env) → Mgr env → Mgr env
  on_stat none g m = m
  on_stat (some pb) g m = record m { stats = update m.stats pb (g (m.stats pb)) }

  -- The statistics, if the function did not end before.
  unfoldable pub settle_up : Clock → Tried env → Sent env
  settle_up clk r =
      let p = r.sent.pkt in
      if is_sent p.state
      then record r.sent {
        mgr = on_stat r.pb (λ s. roll_second clk (count_put (length p.payload) s)) r.sent.mgr;
      }
      else record {
        status =
            if is_canceled r.sent.status && r.sent.mgr.connected_tcp_out == 0
            then err_no_peer
            else r.sent.status;
        mgr = on_stat r.pb (roll_second clk) r.sent.mgr;
        pkt = p;
      }

  -- `locked` is the result of the timed lock, `len` the size of the item.
  unfoldable pub send_segment_itm : Status → Clock → Mgr env → Packet env → ℕ → Sent env
  unfolding settle_up route
  send_segment_itm locked clk m p len =
      let r = route clk (note_time p m) (note_attempt clk p) len in
      if is_timeout locked
      then record { status = err_timeout; mgr = m; pkt = p }
      else if is_settled p.state
      then record { status = err_ok; mgr = m; pkt = p }
      else if m.block_sending_1
      then record { status = err_canceled; mgr = m; pkt = p }
      else if too_soon clk p
      then record { status = err_too_many_attempt; mgr = m; pkt = p }
      else if r.ended
      then r.sent
      else settle_up clk r
