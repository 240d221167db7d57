-- ===== src/PacketMgr/Tests.antt =====
-- A network and a disk to try the packet manager on, and its theorems there.
use vs_slns.Base.{
  ℕ, ◌+◌, ◌-◌, ◌≤◌, ◌≡◌, refl, ◌↔◌, Bool, true, false, List, [], ◌∷◌, some, arith, ◌==◌, ltb,
  if◌then◌else◌, Status, err_ok, err_no_peer, err_general,
}
use vs_slns.Defrag.Types.{no_time}
use vs_slns.PacketMgr.Types.{Env, Packet, Tcp, TcpStat, Mgr, Clock, PktState, Route}
use vs_slns.PacketMgr.Send.Write.{write_over, over}
use vs_slns.PacketMgr.Send.Routes.{search_tcps, search_abs}
use vs_slns.PacketMgr.Send.Whole.{route, settle_up, send_segment_itm}
use vs_slns.PacketMgr.Send.Traffic.{Pending}
use vs_slns.PacketMgr.Send.Delivery.{SentOrWaits, send_segment_itm-SentOrWaiting}
use vs_slns.PacketMgr.Store.{Storage, discharge_persistent_storage_data}
use vs_slns.PacketMgr.Store.Once.{send, store, run, OneOutcome, run-OneOutcome}
use vs_slns.PacketMgr.Store.States.{NotLost, discharge_persistent_storage_data-NotLost}
use vs_slns.PacketMgr.Pressure.{
  Settings, Ordered, skips, sampling_filled_segment_count, skips-sampling_filled_segment_count,
}

-- The network keeps what was written, and how many writes it takes before the peer is lost.
pub record Wire : Type 0 where
  pub written : List (ℕ × List ℕ)
  pub left : ℕ

abbrev write : Wire → ℕ → List ℕ → Status × Wire
write w c bytes =
    if ltb 0 w.left
    then (err_ok, record { written = (c, bytes) ∷ w.written; left = w.left - 1 })
    else (err_no_peer, w)

abbrev env : Env
env = record {
  Name = ℕ;
  str_same = λ a b. a == b;
  Net = Wire;
  tcps_write = write;
  tcps_close = λ w c. w;
  Window = ℕ;
  add_packet = λ w n. w + n;
  bps_gt = λ w n. ltb n w;
  Indicator = Bool;
  dead = λ b. false;
  Metr = List ℕ;
  advance = λ m x. x ∷ m;
  diff_nsec_lt = λ a b n. ltb b (a + n);
}

-- The disk keeps the packets it was given, if it has room.
pub record Shelf : Type 0 where
  pub packets : List (Packet env)
  pub room : ℕ

abbrev keep : Shelf → Packet env → Status × Shelf
keep d p =
    if ltb 0 d.room
    then (err_ok, record { packets = p ∷ d.packets; room = d.room - 1 })
    else (err_general, d)

abbrev shelf : Storage env
shelf = record {
  Disk = Shelf;
  store_data = λ d p len. keep d p;
  reroute_nopeer_pkt = λ d p sz name. keep d p;
}

abbrev connection : Bool → Tcp env
connection post = record {
  name = 3;
  send_gap_nsec = 0;
  send_throughput_limit = 0;
  post_enter = post;
  this = 1;
  owner_pb = 0;
  tcp_conn_established = true;
  tcp_is_about_to_connect = false;
  last_send_ts = 0;
  last_action_ts = 0;
  load_on_out_bridge = 0;
}

abbrev no_stat : TcpStat env
no_stat = record {
  total_tcp_put_count = 0;
  total_tcp_put_byte = 0;
  calc_throughput_tcp_put_count = 0;
  calc_throughput_tcp_put_bytes = 0;
  tcp_send_data_alive_indicator = 0;
  t_tcp_throughput = 0;
  tcp_port_err_indicator = true;
  tcp_stat_5_sec_count = [];
  tcp_stat_5_sec_bytes = [];
  tcp_stat_10_sec_count = [];
  tcp_stat_10_sec_bytes = [];
  tcp_stat_40_sec_count = [];
  tcp_stat_40_sec_bytes = [];
}

-- One bridge with connection 1, whose peer takes `writes` writes; `post` says whether it wants a new
-- line behind each packet, `r` what is known of its name.
abbrev manager : ℕ → Bool → Route → Mgr env
manager writes post r = record {
  net = record { written = []; left = writes };
  tcps = λ i. connection post;
  abs = (0, 1 ∷ []) ∷ [];
  stats = λ i. no_stat;
  map_tcp_socket = λ n. r;
  connected_tcp_out = 1;
  block_sending_1 = false;
  latest_memmap_time = no_time;
  latest_huge_memory_time = no_time;
  ram_load_on_out_bridge = 0;
  ram_load_on_storage = 0;
  inner_status_error = 0;
}

abbrev packet : PktState → Packet env
packet s = record {
  tm = record { tv_sec = 100; tv_usec = 0 };
  cool_down_attempt = 0;
  prev_state = PktState.ps_on_l1_cache;
  state = s;
  tcp_name = 3;
  payload = 65 ∷ 66 ∷ [];
}

abbrev clock : Clock
clock = record { sec = 200; nsec = 7 }

-- A packet for an unknown name is looked up, sent with its new line, and counted.
found_and_sent :
    let r =
      send_segment_itm env err_ok clock
        (manager 5 true Route.absent)
        (packet PktState.ps_on_l2_ram)
        9 in
    ◌≡◌ {A = Status × List (ℕ × List ℕ) × ℕ}
      (r.status, r.mgr.net.written, (r.mgr.stats 0).total_tcp_put_byte)
      (err_ok, (1, 10 ∷ []) ∷ (1, 65 ∷ 66 ∷ []) ∷ [], 2)
unfolding send_segment_itm route search_abs search_tcps over write_over settle_up
found_and_sent = refl

send_segment_itm-SentOrWaiting_example :
    SentOrWaits env
      (packet PktState.ps_on_l2_ram)
      (record { written = []; left = 5 })
      (send_segment_itm env err_ok clock
        (manager 5 true Route.absent)
        (packet PktState.ps_on_l2_ram)
        9)
send_segment_itm-SentOrWaiting_example =
    send_segment_itm-SentOrWaiting env err_ok clock (manager 5 true Route.absent)
      (packet PktState.ps_on_l2_ram) 9 Pending.on_l2_ram

abbrev empty_shelf : Shelf
empty_shelf = record { packets = []; room = 4 }

run-OneOutcome_example :
    OneOutcome env shelf
      (65 ∷ 66 ∷ [])
      (record { written = []; left = 0 })
      empty_shelf
      (run env shelf
        (send err_ok clock 9 ∷ store 9 ∷ send err_ok clock 9 ∷ store 9 ∷ [])
        (manager 0 true Route.absent)
        empty_shelf
        (packet PktState.ps_on_l2_ram))
run-OneOutcome_example =
    run-OneOutcome env shelf (send err_ok clock 9 ∷ store 9 ∷ send err_ok clock 9 ∷ store 9 ∷ [])
      (manager 0 true Route.absent) empty_shelf (packet PktState.ps_on_l2_ram) Pending.on_l2_ram

discharge_persistent_storage_data-NotLost_example :
    NotLost env shelf
      (packet PktState.ps_replicated_one_on_pub_file)
      9
      (record { written = []; left = 0 })
      empty_shelf
      (discharge_persistent_storage_data env shelf false err_ok clock
        (manager 0 true (Route.connected 1))
        empty_shelf
        (some (packet PktState.ps_replicated_one_on_pub_file))
        9)
discharge_persistent_storage_data-NotLost_example =
    discharge_persistent_storage_data-NotLost env shelf false err_ok clock
      (manager 0 true (Route.connected 1)) empty_shelf
      (packet PktState.ps_replicated_one_on_pub_file) 9 Pending.on_pub_file

abbrev settings : Settings
settings = record {
  no_backpressure_threshold_sec = 120;
  gentle_backpressure_threshold_sec = 60;
  aggressive_backpressure_threshold_sec = 30;
  emergency_drop_backpressure_threshold_sec = 10;
  skip_input_threshold_sec = 5;
  gentle_backpressure_stride = 2;
  aggressive_backpressure_stride = 5;
  emergency_drop_backpressure_stride = 20;
  red_zone_stride = 100;
  max_saved_file_size_threshold_mb = 1000;
}

settings-Ordered : Ordered settings
settings-Ordered = record {
  gentle = omega arith;
  aggressive = omega arith;
  emergency = omega arith;
  skip = omega arith;
}

skips-sampling_filled_segment_count_example :
    (skips (sampling_filled_segment_count settings (λ n. ltb n 8) 10) ≡ false)
    ↔ ((ltb 5 8 ≡ true) × (10 ≤ 1000))
skips-sampling_filled_segment_count_example =
    skips-sampling_filled_segment_count settings (λ n. ltb n 8) 10 settings-Ordered
      λ n k h e. ground arith
