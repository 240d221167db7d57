-- ===== src/PacketMgr/Send/Write.antt =====
-- send_segment_itm: the limits on one connection, the write, and what its result changes.
use vs_slns.Base.{
  ℕ, Bool, true, false, ◌&&◌, [], ◌∷◌, ltb, if◌then◌else◌, inc, Status, err_port_occupied, is_ok,
  update,
}
use vs_slns.PacketMgr.Types.{Env, Packet, Tcp, Mgr, Clock, Sent, PktState, is_on_l2_ram}

abbrev pub is_no_peer : Status → Bool
is_no_peer Status.err_no_peer = true
is_no_peer Status.err_peer_closed = true
is_no_peer _ = false

module _ (env : Env) where
  abbrev pub with_tcp : Mgr env → ℕ → Tcp env → Mgr env
  with_tcp m c t = record m { tcps = update m.tcps c t }

  -- `cr_in_wnd_add_packet( &ptcp->brdg_rate_ctrl_loadOnOutBridge , n )`
  abbrev pub load_tcp : Mgr env → ℕ → ℕ → Mgr env
  load_tcp m c n =
      with_tcp m c
        (record (m.tcps c) { load_on_out_bridge = env.add_packet (m.tcps c).load_on_out_bridge n })

  -- The connection sends too often for its gap.
  abbrev pub too_often : Clock → Mgr env → ℕ → Bool
  too_often clk m c =
      let t = m.tcps c in
      ltb 0 t.send_gap_nsec
      && env.diff_nsec_lt (m.tcps t.this).last_send_ts clk.nsec t.send_gap_nsec

  -- The connection sends too much for its limit; the window moves on to the present first.
  abbrev pub too_much : Mgr env → ℕ → Bool
  too_much m c =
      ltb 0 (m.tcps c).send_throughput_limit
      && env.bps_gt ((load_tcp m c 0).tcps c).load_on_out_bridge (m.tcps c).send_throughput_limit

  abbrev pub with_limit : Mgr env → ℕ → Mgr env
  with_limit m c = if ltb 0 (m.tcps c).send_throughput_limit then load_tcp m c 0 else m

  abbrev pub stamp_send : Clock → Mgr env → ℕ → Mgr env
  stamp_send clk m c =
      with_tcp m c (record (m.tcps c) { last_send_ts = clk.nsec; last_action_ts = clk.nsec })

  -- The new line of the post action, which replaces the status of the write.
  abbrev pub post_action : Mgr env → ℕ → Status → Status × Mgr env
  post_action m c s =
      let (s', n) = env.tcps_write m.net c (10 ∷ []) in
      if (m.tcps c).post_enter then (s', record m { net = n }) else (s, m)

  abbrev pub mark_sent : Packet env → Packet env
  mark_sent p = record p { prev_state = p.state; state = PktState.ps_sent }

  -- Sending a packet out of memory lightens the memory's load.
  abbrev pub lighten : Packet env → ℕ → Mgr env → Mgr env
  lighten p len m =
      if is_on_l2_ram p.state
      then record m { ram_load_on_out_bridge = env.add_packet m.ram_load_on_out_bridge len }
      else m

  -- `errNoPeer`, `errPeerClosed`: connection `c` is closed, once, to be connected again.
  abbrev pub drop_peer : Mgr env → ℕ → Mgr env
  drop_peer m c =
      if (m.tcps c).tcp_is_about_to_connect
      then m
      else record (with_tcp m c (record (m.tcps c) { tcp_is_about_to_connect = true })) {
        net = env.tcps_close m.net c;
      }

  -- Any other error is shown on bridge `pb` and counted.
  abbrev pub count_error : Mgr env → ℕ → Mgr env
  count_error m pb = record m {
    stats = update m.stats pb (record (m.stats pb) {
      tcp_port_err_indicator = env.dead (m.stats pb).tcp_port_err_indicator;
    });
    inner_status_error = inc m.inner_status_error;
  }

  -- A send that did not succeed, or whose post action did not, moves the connection's window on.
  abbrev pub move_window : Sent env → ℕ → Sent env
  move_window r c = if is_ok r.status then r else record r { mgr = load_tcp r.mgr c 0 }

  -- The write over connection `c` of bridge `pb`. After a success the time is stamped on connection
  -- `stamped`; a lost peer closes connection `closed`; `learn` is what else a success changes.
  unfoldable pub write_over :
      Clock → Mgr env → Packet env → ℕ → ℕ → ℕ → ℕ → ℕ → (Mgr env → Mgr env) → Sent env
  write_over clk m p len c pb stamped closed learn =
      let (s, n) = env.tcps_write m.net c p.payload in
      let written = record m { net = n } in
      let posted = post_action (learn (stamp_send clk written stamped)) c s in
      let failed = if is_no_peer s then drop_peer written closed else count_error written pb in
      if is_ok s
      then move_window
          (record {
            status = posted.0;
            mgr = load_tcp (lighten p len posted.1) c len;
            pkt = mark_sent p;
          })
          c
      else move_window (record { status = s; mgr = failed; pkt = p }) c

  -- The limits, then the write. Whether the whole function ends here, and what it leaves.
  unfoldable pub over :
      Clock → Mgr env → Packet env → ℕ → ℕ → ℕ → ℕ → ℕ → (Mgr env → Mgr env) → Bool × Sent env
  over clk m p len c pb stamped closed learn =
      if too_often clk m c
      then (true, record { status = err_port_occupied; mgr = load_tcp m c 0; pkt = p })
      else if too_much m c
      then (true, record { status = err_port_occupied; mgr = with_limit m c; pkt = p })
      else (false, write_over clk (with_limit m c) p len c pb stamped closed learn)
