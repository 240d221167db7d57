-- ===== src/PacketMgr/Types.antt =====
-- packet_mngr.h and Bridge.h: the packet with its state, the TCP connections, the statistics, and
-- what the packet manager takes from other libraries.
use vs_slns.Base.{ℕ, Bool, true, false, List, Status, ◌≡◌, refl, ◌⊎◌, inl, inr}
use vs_slns.Defrag.Types.{Timeval}

-- `pkt_state`
pub data PktState : Type 0 where
  ps_on_l1_cache ps_on_l2_ram ps_original_remain_packet_on_ram : PktState
  ps_replicated_one_on_pub_file ps_remain_packet_on_pub_file : PktState
  ps_replicated_one_on_priv_file ps_sent : PktState

abbrev pub is_sent : PktState → Bool
is_sent PktState.ps_sent = true
is_sent _ = false

abbrev pub is_on_l2_ram : PktState → Bool
is_on_l2_ram PktState.ps_on_l2_ram = true
is_on_l2_ram _ = false

-- The states of a packet that needs no sending any more: it was sent, or its copy will be.
abbrev pub is_settled : PktState → Bool
is_settled PktState.ps_sent = true
is_settled PktState.ps_original_remain_packet_on_ram = true
is_settled PktState.ps_remain_packet_on_pub_file = true
is_settled _ = false

-- The states of a packet that came out of a file.
abbrev pub is_from_file : PktState → Bool
is_from_file PktState.ps_replicated_one_on_pub_file = true
is_from_file PktState.ps_replicated_one_on_priv_file = true
is_from_file _ = false

abbrev pub is_on_priv_file : PktState → Bool
is_on_priv_file PktState.ps_replicated_one_on_priv_file = true
is_on_priv_file _ = false

-- What the packet manager takes from outside.
pub record Env : Type 1 where
  -- A connection's name, compared by `STR_SAME`.
  pub Name : Type 0
  pub str_same : Name → Name → Bool
  -- The network, with `tcps_write` and `tcps_close` on a connection's handle.
  pub Net : Type 0
  pub tcps_write : Net → ℕ → List ℕ → Status × Net
  pub tcps_close : Net → ℕ → Net
  -- `cr_in_wnd_t`, a rate over a sliding window, and `al_alive( .. , false )`.
  pub Window : Type 0
  pub add_packet : Window → ℕ → Window
  pub bps_gt : Window → ℕ → Bool
  pub Indicator : Type 0
  pub dead : Indicator → Indicator
  -- `cbuf_m_advance`
  pub Metr : Type 0
  pub advance : Metr → ℕ → Metr
  -- `timespec_diff_nsec( a , b ) < n`
  pub diff_nsec_lt : ℕ → ℕ → ℕ → Bool

-- `xudp_hdr` with its payload: `payload` is what goes over the wire.
pub record Packet (env : Env) : Type 0 where
  pub tm : Timeval
  pub cool_down_attempt : ℕ
  pub prev_state : PktState
  pub state : PktState
  pub tcp_name : env.Name
  pub payload : List ℕ

-- `AB_tcp` with the settings that the packet manager reads. `this` is the number of the main
-- connection that it shares; `post_enter` tells whether its post action is `post enter`.
pub record Tcp (env : Env) : Type 0 where
  pub name : env.Name
  pub send_gap_nsec : ℕ
  pub send_throughput_limit : ℕ
  pub post_enter : Bool
  pub this : ℕ
  pub owner_pb : ℕ
  pub tcp_conn_established : Bool
  pub tcp_is_about_to_connect : Bool
  pub last_send_ts : ℕ
  pub last_action_ts : ℕ
  pub load_on_out_bridge : env.Window

-- The part of a bridge's `stat` that counts what was sent.
pub record TcpStat (env : Env) : Type 0 where
  pub total_tcp_put_count : ℕ
  pub total_tcp_put_byte : ℕ
  pub calc_throughput_tcp_put_count : ℕ
  pub calc_throughput_tcp_put_bytes : ℕ
  pub tcp_send_data_alive_indicator : ℕ
  pub t_tcp_throughput : ℕ
  pub tcp_port_err_indicator : env.Indicator
  pub tcp_stat_5_sec_count : env.Metr
  pub tcp_stat_5_sec_bytes : env.Metr
  pub tcp_stat_10_sec_count : env.Metr
  pub tcp_stat_10_sec_bytes : env.Metr
  pub tcp_stat_40_sec_count : env.Metr
  pub tcp_stat_40_sec_bytes : env.Metr

-- What `map_tcp_socket` says of a name: a connection with a valid socket, one without, or nothing.
-- Every entry with a valid socket has a connection.
pub data Route : Type 0 where
  connected disconnected : ℕ → Route
  absent : Route

pub Route-cases :
    (r : Route)
    → ((c : ℕ) × (r ≡ Route.connected c))
      ⊎ (((c : ℕ) × (r ≡ Route.disconnected c)) ⊎ (r ≡ Route.absent))
Route-cases (Route.connected c) = inl (c, refl)
Route-cases (Route.disconnected c) = inr (inl (c, refl))
Route-cases Route.absent = inr (inr refl)

-- `pkt_mgr_t` with the parts of `G` that its functions use. A bridge is its number and the list of
-- its connections' numbers.
pub record Mgr (env : Env) : Type 0 where
  pub net : env.Net
  pub tcps : ℕ → Tcp env
  pub abs : List (ℕ × List ℕ)
  pub stats : ℕ → TcpStat env
  pub map_tcp_socket : env.Name → Route
  pub connected_tcp_out : ℕ
  pub block_sending_1 : Bool
  pub latest_memmap_time : Timeval
  pub latest_huge_memory_time : Timeval
  pub ram_load_on_out_bridge : env.Window
  pub ram_load_on_storage : env.Window
  pub inner_status_error : ℕ

-- What `time` and `clock_gettime` say during a call.
pub record Clock : Type 0 where
  pub sec : ℕ
  pub nsec : ℕ

-- What a sending leaves behind.
pub record Sent (env : Env) : Type 0 where
  pub status : Status
  pub mgr : Mgr env
  pub pkt : Packet env
