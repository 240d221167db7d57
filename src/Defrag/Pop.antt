-- ===== src/Defrag/Pop.antt =====
-- poped_defraged_packet as a whole: the path of a datagram that came in one piece, the path of a
-- fragmented one, and the way between them.
pub mod Ends
pub mod Clears
pub mod Reassembly
pub mod Counts
use vs_slns.Base.{
  ℕ, ◌+◌, Bool, true, false, not, ◌&&◌, List, ◌==◌, if◌then◌else◌, length, write, Status, err_ok,
  err_general, is_ok, is_timeout, Outcome, returns, ◌>>=◌,
}
use vs_slns.Defrag.Types.{Env, Bridge, DfrgUdpMetadata, Now, dirty, complete}
use vs_slns.Defrag.Produce.{count_kernel}
use vs_slns.Defrag.Wait.{Wake}
use vs_slns.Defrag.Wait
use vs_slns.Defrag.Consume.{Out, count_bad_buffer, count_tried, count_incomplete}
use vs_slns.Defrag.Consume

module _ (env : Env) where
  -- What the function returns and leaves behind: the status, the bridge, the caller's buffers.
  abbrev pub Popped : Type 0
  Popped = Status × Bridge env × Out

  -- A datagram is given up: counted, its slot cleared, the next entry of the ring dropped.
  unfoldable pub give_up : Bridge env → ℕ → Out → Popped
  unfolding Consume.ignore
  give_up b id out = (
    err_general,
    Consume.ignore env (Consume.clear env (Consume.recount env (count_incomplete (b.ids id)) b) id),
    out,
  )

  -- The payload of a datagram in one piece goes straight to the caller's buffer.
  unfoldable pub deliver_whole : Now → Bridge env → DfrgUdpMetadata → Out → Popped
  deliver_whole now b tmp out =
      let id = tmp.hdr.udp_pkt_id in
      let (s, payload, ring) = env.pop b.raw_xudp_cache 0 env.socket_def_timeout_sec false in
      let out1 = record out { hdr = tmp.hdr } in
      let popped = Consume.clear env (record b { raw_xudp_cache = ring }) id in
      let kernel = if is_timeout s then b.counters else count_kernel b.counters in
      if is_ok s
      then (
        err_ok,
        Consume.with_stat env now (length payload) (Consume.recount env count_tried popped),
        record out1 { buf = write out1.buf 0 payload; len = length payload },
      )
      else (s, record popped { counters = count_bad_buffer kernel }, out1)

  -- The fragments are copied to their offsets out of the ring's memory.
  unfoldable pub deliver_parts : Now → ℕ → Bridge env → ℕ → Out → Popped
  deliver_parts now room b id out =
      let p = b.ids id in
      let (done, c, out1) =
        Consume.copy_parts env (p.last_pos + 1) 0 b.raw_xudp_cache p room b.counters out in
      let b1 = Consume.ignore env (Consume.clear env (record b { counters = c }) id) in
      if done
      then (err_ok, Consume.with_stat env now out1.len b1, out1)
      else (err_general, b1, out1)

  -- `tmp_hdr.data_length_B && tmp_hdr.data_progress_B == tmp_hdr.data_length_B`
  abbrev pub in_one_piece : DfrgUdpMetadata → Bool
  in_one_piece tmp = not (tmp.data_length == 0) && tmp.data_progress == tmp.data_length

  -- What is decided after the wait, on the slot as it is then.
  unfoldable pub finish : Now → ℕ → DfrgUdpMetadata → Out → Bridge env → Popped
  unfolding give_up deliver_whole deliver_parts
  finish now room tmp out b =
      let id = tmp.hdr.udp_pkt_id in
      if not (complete (b.ids id))
      then give_up b id out
      else if in_one_piece tmp
      then deliver_whole now b tmp out
      else deliver_parts now room b id out

  -- The slot of the metadata is looked up, waited for and delivered.
  unfoldable pub take : List Wake → Now → ℕ → DfrgUdpMetadata → Out → Bridge env → Outcome Popped
  unfolding finish
  take wakes now room tmp out b =
      let id = tmp.hdr.udp_pkt_id in
      let waited = Wait.wait_parts env wakes b id tmp.hdr.tm in
      let finished = waited >>= λ b'. returns (finish now room tmp out b') in
      if not (tmp.mark_memory == env.marker_mem)
      then returns (err_general, Consume.ignore env (Consume.recount env count_bad_buffer b), out)
      else if not (dirty (b.ids id))
      then returns (err_general, Consume.ignore env b, out)
      else finished

  -- `room` is `out_buf_sz`; `wakes` is the schedule of the wait; `now` is what the clocks say at the end.
  unfoldable pub poped_defraged_packet : List Wake → Now → ℕ → Bridge env → Out → Outcome Popped
  unfolding take
  poped_defraged_packet wakes now room b out =
      let (s, bytes, ring) =
        env.pop b.raw_xudp_cache env.sizeof_metadata env.socket_def_timeout_sec true in
      let b1 = record b { raw_xudp_cache = ring } in
      let kernel = if is_timeout s then b.counters else count_kernel b.counters in
      let taken = take wakes now room (env.of_bytes bytes) out b1 in
      if is_ok s then taken else returns (s, record b1 { counters = kernel }, out)
