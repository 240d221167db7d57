-- ===== src/PacketMgr/Store.antt =====
-- store_segment_item, remap_storage_data and discharge_persistent_storage_data: a packet that cannot
-- be sent goes to the disk, and comes back from there.
pub mod Once
pub mod States
pub mod Faults
use vs_slns.Base.{
  ℕ, ◌+◌, Bool, true, false, not, ◌&&◌, List, Option, none, some, ◌==◌, ltb, if◌then◌else◌, inc,
  Status, err_ok, err_port_occupied, err_mapped, err_but_continue, err_done_already, is_ok,
}
use vs_slns.Defrag.Types.{Timeval, no_time}
use vs_slns.PacketMgr.Types.{Env, Packet, Mgr, Clock, Sent, PktState, is_on_l2_ram, is_on_priv_file}
use vs_slns.PacketMgr.Send.Write.{is_no_peer}
use vs_slns.PacketMgr.Send.Whole.{send_segment_itm}

-- The two distributors behind which the disk stands: one stores a packet on the public stack, the
-- other in the queue of its connection. What they publish is the packet as it is at that moment.
pub record Storage (env : Env) : Type 1 where
  pub Disk : Type 0
  pub store_data : Disk → Packet env → ℕ → Status × Disk
  pub reroute_nopeer_pkt : Disk → Packet env → ℕ → env.Name → Status × Disk

module _ (env : Env) (st : Storage env) where
  -- What a call leaves behind.
  pub record Stored : Type 0 where
    pub status : Status
    pub mgr : Mgr env
    pub disk : st.Disk
    pub pkt : Packet env

  -- The time of the latest packet on disk goes back to that of a packet that is not older.
  abbrev pub note_stored : Packet env → Mgr env → Mgr env
  note_stored p m =
      if not (m.latest_memmap_time.tv_sec == 0) && ltb p.tm.tv_sec m.latest_memmap_time.tv_sec
      then m
      else record m { latest_memmap_time = p.tm }

  -- The packet as it goes to the public file.
  abbrev pub pub_copy : Packet env → Packet env
  pub_copy p = record p { prev_state = p.state; state = PktState.ps_replicated_one_on_pub_file }

  unfoldable pub store_segment_item : Mgr env → st.Disk → Packet env → ℕ → Stored
  store_segment_item m d p len =
      let noted = note_stored p m in
      let (s, d') = st.store_data d (pub_copy p) len in
      if not (is_on_l2_ram p.state)
      then record { status = err_ok; mgr = m; disk = d; pkt = p }
      else if is_ok s
      then record {
        status = s;
        mgr = record noted { ram_load_on_storage = env.add_packet noted.ram_load_on_storage len };
        disk = d';
        pkt = record (pub_copy p) { state = PktState.ps_original_remain_packet_on_ram };
      }
      else record {
        status = s;
        mgr = record noted { inner_status_error = inc noted.inner_status_error };
        disk = d';
        pkt = pub_copy p;
      }

  -- The packet as it goes to the file of its connection.
  abbrev pub priv_copy : Packet env → Packet env
  priv_copy p = record p { prev_state = p.state; state = PktState.ps_replicated_one_on_priv_file }

  unfoldable pub remap_storage_data : Mgr env → st.Disk → Packet env → ℕ → Stored
  remap_storage_data m d p sz =
      let (s, d') = st.reroute_nopeer_pkt d (priv_copy p) sz p.tcp_name in
      if is_on_priv_file p.state
      then record { status = err_done_already; mgr = m; disk = d; pkt = p }
      else if is_ok s
      then record {
        status = s;
        mgr = m;
        disk = d';
        pkt = record (priv_copy p) { state = PktState.ps_remain_packet_on_pub_file };
      }
      else record { status = s; mgr = m; disk = d'; pkt = record (priv_copy p) { state = p.state } }

  abbrev pub is_done_already : Status → Bool
  is_done_already Status.err_done_already = true
  is_done_already _ = false

  -- A packet out of a file: sent if its peer is there, else moved to the file of its connection.
  -- `skip_section` says that the pressure is in the section that skips; no buffer means that the files
  -- are empty.
  unfoldable pub discharge_persistent_storage_data :
      Bool
      → Status
      → Clock
      → Mgr env
      → st.Disk
      → Option (Packet env)
      → ℕ
      → Status × Mgr env × st.Disk × Option (Packet env)
  discharge_persistent_storage_data skip_section locked clk m d none sz =
      if skip_section then (err_port_occupied, m, d, none) else (
        err_ok,
        if m.latest_memmap_time.tv_sec == 0 then m else record m { latest_memmap_time = no_time },
        d,
        none,
      )
  discharge_persistent_storage_data skip_section locked clk m d (some p) sz =
      let r = send_segment_itm env locked clk m (record p { prev_state = p.state }) sz in
      let moved = remap_storage_data r.mgr d r.pkt sz in
      if skip_section
      then (err_port_occupied, m, d, some p)
      else if not (is_no_peer r.status)
      then (r.status, r.mgr, d, some r.pkt)
      else (
        if is_ok moved.status
            then err_mapped
            else if is_done_already moved.status
            then err_but_continue
            else r.status,
        moved.mgr,
        moved.disk,
        some moved.pkt,
      )
