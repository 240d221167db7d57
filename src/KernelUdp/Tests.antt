-- ===== src/KernelUdp/Tests.antt =====
-- Two sockets, a few datagrams, and the theorems at them.
use vs_slns.Base.{
  ◌≡◌, refl, inl, true, false, List, [], ◌∷◌, ◌==◌, returns, undefined, arith, Returns,
}
use vs_slns.KernelUdp.{
  Udp, Received, eagain, datagram, Stat, Activity, stop_receiving, active, Thread, drain_ready,
  select_round, select_loop, proc_krnl_udp, fd_set,
}
use vs_slns.KernelUdp.Threads.{
  count_until_empty, count_datagrams, proc_krnl_udp_counter, proc_one2one_krnl_udp_store, Sizes,
  Cup, new_cup, store_until_empty,
}
use vs_slns.KernelUdp.Watching.{reads, select_loop_forgets}
use vs_slns.KernelUdp.Publishes.{message, Ready, store_until_empty-publishes}
use vs_slns.KernelUdp.Overruns.{store_until_empty-overruns}
use vs_slns.KernelUdp.Steady.{Balanced}
use vs_slns.KernelUdp.Rates.{proc-Balanced}

abbrev sockets : List Udp
sockets =
    record { udp_sockfd = 4; udp_connection_established = true }
    ∷ record { udp_sockfd = 5; udp_connection_established = true }
    ∷ []

abbrev zero_stat : Stat
zero_stat = record {
  t_begin = 0;
  t_end = 0;
  continuously_unsuccessful_select_on_open_port_count = 0;
  continuously_unsuccessful_receive_error = 0;
  total_unsuccessful_receive_error = 0;
  t_udp_throughput = 0;
  calc_throughput_udp_get_count = 0;
  calc_throughput_udp_get_bytes = 0;
  total_udp_get_count = 0;
  total_udp_get_byte = 0;
  udp_get_data_alive_indicator = 0;
  advanced = [];
}

abbrev two_bytes : List Received
two_bytes = datagram (b'{' ∷ b'}' ∷ []) 9 true ∷ eagain ∷ []

-- Socket 4 is reported first, socket 5 later.
abbrev schedule : List Activity
schedule =
    active 100 1 (λ fd. fd == 4) (λ fd. two_bytes)
    ∷ active 200 3 (λ fd. true) (λ fd. two_bytes)
    ∷ stop_receiving
    ∷ []

abbrev counter : Thread (Unit {0})
counter = record { readfds = fd_set sockets; stat = zero_stat; kept = tt; read_from = [] }

select_loop_forgets_example :
    reads 5 (select_loop count_datagrams sockets schedule counter).0.read_from ≡ 0
select_loop_forgets_example =
    select_loop_forgets count_datagrams 5 100 1 sockets (λ fd. fd == 4) (λ fd. two_bytes)
      (active 200 3 (λ fd. true) (λ fd. two_bytes) ∷ stop_receiving ∷ []) counter refl

-- Socket 4 is read twice.
socket_4_read : reads 4 (select_loop count_datagrams sockets schedule counter).0.read_from ≡ 2
unfolding select_loop select_round drain_ready
socket_4_read = refl

counted : (proc_krnl_udp_counter false sockets schedule zero_stat).0.stat.advanced ≡ (1, 2) ∷ []
unfolding proc_krnl_udp_counter proc_krnl_udp select_loop select_round drain_ready count_until_empty
counted = refl

abbrev sizes : Sizes
sizes = record { buffer_size = 13; main_load_offset = 10 }

abbrev cup : Cup
cup = new_cup sizes (b'A' ∷ [])

cup-Ready : Ready sizes cup
cup-Ready = record { field = inl refl; room = refl }

store_until_empty-publishes_example :
    Returns
      (λ last. (last.published ≡ message (b'{' ∷ b'}' ∷ []) ∷ []) × Ready sizes last)
      (store_until_empty sizes two_bytes zero_stat (returns cup)).1
store_until_empty-publishes_example =
    store_until_empty-publishes sizes (omega arith) two_bytes zero_stat cup cup-Ready
      (omega arith, tt)

store_until_empty-overruns_example :
    (store_until_empty sizes
      (datagram (1 ∷ 2 ∷ 3 ∷ 4 ∷ []) 9 true ∷ eagain ∷ [])
      zero_stat
      (returns cup)).1
    ≡ undefined
store_until_empty-overruns_example =
    store_until_empty-overruns sizes (omega arith) (1 ∷ 2 ∷ 3 ∷ 4 ∷ []) 9 true (eagain ∷ [])
      zero_stat cup (omega arith) (omega arith)

proc-Balanced_example :
    Balanced (proc_krnl_udp_counter false sockets schedule zero_stat).0.stat
    × Balanced
        (proc_one2one_krnl_udp_store sizes (b'A' ∷ []) false sockets schedule zero_stat).0.stat
proc-Balanced_example =
    proc-Balanced false sockets schedule zero_stat sizes (b'A' ∷ [])
      (omega arith, (omega arith, tt)) (refl, refl) (λ e. (refl, refl))
