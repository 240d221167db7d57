-- ===== src/KernelUdp.antt =====
-- The threads that read datagrams from the kernel's sockets: Protocol_Bridge/src/
-- _2_krnl_udp_counter.c counts them, _6_one2one_krnl2krnl_SF.c and _7_many2many_krnl2krnl_SF.c publish
-- them. The three have one loop around `select`; they differ in what they do with a datagram.
pub mod Threads
pub mod Publishes
pub mod Overruns
pub mod Counts
pub mod Watching
pub mod Steady
pub mod Rates
mod Tests
use vs_slns.Base.{
  ℕ, zero, suc, ◌+◌, ◌-◌, Bool, true, false, not, ◌&&◌, List, [], ◌∷◌, ◌++◌, Option, none, some,
  ◌==◌, leb, ltb, if◌then◌else◌, length, Outcome, returns, blocks, undefined, ◌>>=◌, inc, inc_int,
  add64,
}
use vs_slns.Forward.{Tm, take, open_object, stamp}

-- `AB_udp`
pub record Udp : Type 0 where
  pub udp_sockfd : ℕ
  pub udp_connection_established : Bool

-- What one call of `recvfrom` gives, with the time at which it was asked for. `accepted` is whether the
-- distributor took the datagram. `EWOULDBLOCK` need not be `EAGAIN`.
pub data Received : Type 0 where
  eagain ewouldblock other_error : Received
  datagram : (bytes : List ℕ) (now : ℕ) (accepted : Bool) → Received

-- The bridge's `stat`: `round_zero_set`, and the pairs of a count and of bytes that the six
-- `cbuf_m_advance` were given, the last one first. The counters are 64-bit words; the two of errors and
-- the indicator are of type `int`, kept as their 32-bit patterns.
pub record Stat : Type 0 where
  pub t_begin : ℕ
  pub t_end : ℕ
  pub continuously_unsuccessful_select_on_open_port_count : ℕ
  pub continuously_unsuccessful_receive_error : ℕ
  pub total_unsuccessful_receive_error : ℕ
  pub t_udp_throughput : ℕ
  pub calc_throughput_udp_get_count : ℕ
  pub calc_throughput_udp_get_bytes : ℕ
  pub total_udp_get_count : ℕ
  pub total_udp_get_byte : ℕ
  pub udp_get_data_alive_indicator : ℕ
  pub advanced : List (ℕ × ℕ)

abbrev pub receive_error : Stat → Stat
receive_error s = record s {
  continuously_unsuccessful_receive_error = inc_int s.continuously_unsuccessful_receive_error;
  total_unsuccessful_receive_error = inc_int s.total_unsuccessful_receive_error;
}

abbrev pub received : Stat → Stat
received s = record s { continuously_unsuccessful_receive_error = 0 }

-- A datagram of `n` bytes was got.
abbrev pub got : ℕ → ℕ → Stat → Stat
got n now s = record s {
  t_end = now;
  total_udp_get_count = inc s.total_udp_get_count;
  total_udp_get_byte = add64 s.total_udp_get_byte n;
  calc_throughput_udp_get_count = inc s.calc_throughput_udp_get_count;
  calc_throughput_udp_get_bytes = add64 s.calc_throughput_udp_get_bytes n;
  udp_get_data_alive_indicator = inc_int s.udp_get_data_alive_indicator;
}

-- `difftime( tnow , t_udp_throughput ) >= 1.0`, in seconds.
abbrev pub second_over : ℕ → Stat → Bool
second_over tnow s = leb (s.t_udp_throughput + 1) tnow

abbrev pub roll : ℕ → Stat → Stat
roll tnow s = record s {
  advanced =
      if ltb 0 s.t_udp_throughput
      then (s.calc_throughput_udp_get_count, s.calc_throughput_udp_get_bytes) ∷ s.advanced
      else s.advanced;
  t_udp_throughput = tnow;
  calc_throughput_udp_get_count = 0;
  calc_throughput_udp_get_bytes = 0;
}

-- Between `select` and the sockets. `now` is the time of day, `tnow` that of `time`.
abbrev pub note_activity : ℕ → ℕ → Stat → Stat
note_activity now tnow s =
    let begun = record s {
      continuously_unsuccessful_select_on_open_port_count = 0;
      t_begin = if s.t_begin == 0 then now else s.t_begin;
      t_end = if s.t_begin == 0 then now else s.t_end;
    } in
    if second_over tnow s then roll tnow begun else begun

-- What `select` comes to, after `stop_receiving` was read: it is set, `select` fails, it runs out of
-- time with the socket's error, or it reports sockets, from which these results are then got.
pub data Activity : Type 0 where
  stop_receiving select_fails : Activity
  timed_out : (error : ℕ) → Activity
  active : (now tnow : ℕ) (ready : ℕ → Bool) (results : ℕ → List Received) → Activity

abbrev pub is_stop : Activity → Bool
is_stop stop_receiving = true
is_stop _ = false

-- The thread: what `select` is given, the statistics, what the reading of sockets keeps, and the
-- sockets that were read, the last one first.
pub record Thread (A : Type 0) : Type 0 where
  pub readfds : ℕ → Bool
  pub stat : Stat
  pub kept : A
  pub read_from : List ℕ

module _ {A : Type 0} (drain : List Received → Stat → A → Stat × A) where
  -- One socket, if it is established and `select` reported it.
  abbrev pub drain_one : Udp → (ℕ → List Received) → Thread A → Thread A
  drain_one u results k =
      let (next, kept) = drain (results u.udp_sockfd) k.stat k.kept in
      if u.udp_connection_established && k.readfds u.udp_sockfd
      then record k { stat = next; kept = kept; read_from = u.udp_sockfd ∷ k.read_from }
      else k

  -- The loop over the sockets.
  unfoldable pub drain_ready : List Udp → (ℕ → List Received) → Thread A → Thread A
  drain_ready [] results k = k
  drain_ready (u ∷ us) results k = drain_ready us results (drain_one u results k)

  -- One round. `select` leaves in its set those that it was given and that are ready, and none when
  -- it runs out of time.
  unfoldable pub select_round : List Udp → Activity → Thread A → Thread A
  select_round us stop_receiving k = k
  select_round us select_fails k = k
  select_round us (timed_out error) k = record k {
    readfds = λ fd. false;
    stat =
        if error == 0
        then record k.stat {
          continuously_unsuccessful_select_on_open_port_count =
              inc k.stat.continuously_unsuccessful_select_on_open_port_count;
        }
        else k.stat;
  }
  select_round us (active now tnow ready results) k =
      drain_ready us results (record k {
        readfds = λ fd. k.readfds fd && ready fd;
        stat = note_activity now tnow k.stat;
      })

  -- The loop; with it, whether it was left.
  unfoldable pub select_loop : List Udp → List Activity → Thread A → Thread A × Bool
  select_loop us [] k = (k, false)
  select_loop us (a ∷ acts) k =
      let rest = select_loop us acts (select_round us a k) in if is_stop a then (k, true) else rest

-- The established sockets.
abbrev pub fd_set : List Udp → ℕ → Bool
fd_set [] fd = false
fd_set (u ∷ us) fd =
    if u.udp_connection_established && (u.udp_sockfd == fd) then true else fd_set us fd

abbrev pub any_established : List Udp → Bool
any_established [] = false
any_established (u ∷ us) = if u.udp_connection_established then true else any_established us

module _ {A : Type 0} (drain : List Received → Stat → A → Stat × A) where
  -- The thread; `stopped` is what is read of `stop_receiving` at first. Without a socket the outer loop
  -- is continued, and so left, since `config_changes` is 0. At the end `receive_stoped` is set.
  unfoldable pub proc_krnl_udp : Bool → List Udp → List Activity → Stat → A → Thread A × Bool
  proc_krnl_udp stopped us acts s kept =
      let k : Thread A = record { readfds = fd_set us; stat = s; kept = kept; read_from = [] } in
      if stopped
      then (k, true)
      else if any_established us
      then select_loop drain us acts k
      else (k, true)
