-- ===== src/PacketMgr/Rounds.antt =====
-- process_filled_tcp_segment_proc: one segment after another is taken out of memory and sent, or
-- stored; while there is none, the files get their turn.
pub mod History
pub mod Quiet
pub mod Ledger
pub mod Accounts
mod Tests
use vs_slns.Base.{
  ℕ, zero, suc, ◌+◌, ◌%◌, Bool, true, false, not, ◌&&◌, ◌||◌, List, [], ◌∷◌, Option, none, some,
  ◌==◌, leb, ltb, if◌then◌else◌, set, get_or, replicate, Status, is_ok,
}
use vs_slns.PersistCache.{GatewayOpenStat, gws_die, gws_close, gws_open, is_open}

-- What a round reads and what the calls of other libraries answer: `tm_cmp >= 0`, whether a segment is
-- popped, whether the items of the segment were sent without a fault, what `ci_sgm_mark_empty` says,
-- and what the other threads set the gateway to at the end of the round.
pub record Turn : Type 0 where
  pub quit_noloss_data_thread_4 : Bool
  pub latest_huge_memory_sec : ℕ
  pub latest_memmap_sec : ℕ
  pub memory_not_before_disk : Bool
  pub block_sending_1 : Bool
  pub skips_section : Bool
  pub popped : Bool
  pub items_sent : Bool
  pub marked : Status
  pub cleaned_segments : Bool
  pub set_by_others : Option GatewayOpenStat

-- The thread: the last 16 rounds in `cpu_unburne`, the gateway with its semaphore, the segments whose
-- packets were offered for sending and for storing, the statistics, and the sleeps.
pub record Sending : Type 0 where
  pub bytes : List ℕ
  pub idx : ℕ
  pub pagestack_gateway_open_val : GatewayOpenStat
  pub pagestack_gateway_open_sem : ℕ
  pub offered_tcp : ℕ
  pub offered_store : ℕ
  pub close_gate_cnt : ℕ
  pub open_gate_cnt : ℕ
  pub open_gate_no_segment_cnt : ℕ
  pub open_gate_l3_order_cnt : ℕ
  pub whole_segment_send_directly : ℕ
  pub half_segment_send_directly : ℕ
  pub slept : ℕ

-- Memory is first: the disk has no older packet, or sending or passing on is stopped.
abbrev pub memory_first : Turn → Bool
memory_first r =
    (r.latest_huge_memory_sec == 0)
    || ((r.latest_memmap_sec == 0)
        || (r.memory_not_before_disk || (r.block_sending_1 || r.skips_section)))

-- `cpu_unburne.idx = ( cpu_unburne.idx + 1 ) % 16`, and the byte there.
abbrev pub note_round : ℕ → Sending → Sending
note_round b s = let i = (s.idx + 1) % 16 in record s { bytes = set s.bytes i b; idx = i }

abbrev pub is_closed : GatewayOpenStat → Bool
is_closed gws_close = true
is_closed _ = false

-- The gateway is opened and the thread behind it woken, if it was closed.
abbrev pub let_files_in : Turn → Sending → Sending
let_files_in r s =
    if is_closed s.pagestack_gateway_open_val
    then record s {
      open_gate_cnt = s.open_gate_cnt + 1;
      open_gate_no_segment_cnt =
          if memory_first r then s.open_gate_no_segment_cnt + 1 else s.open_gate_no_segment_cnt;
      open_gate_l3_order_cnt =
          if memory_first r then s.open_gate_l3_order_cnt else s.open_gate_l3_order_cnt + 1;
      pagestack_gateway_open_val = gws_open;
      pagestack_gateway_open_sem = s.pagestack_gateway_open_sem + 1;
    }
    else s

abbrev pub shut_gate : Sending → Sending
shut_gate s =
    if is_open s.pagestack_gateway_open_val
    then record s { pagestack_gateway_open_val = gws_close; close_gate_cnt = s.close_gate_cnt + 1 }
    else s

abbrev pub sent_whole : Turn → Bool
sent_whole r = not r.block_sending_1 && r.items_sent

-- The packets of the segment are offered to TCP unless sending is blocked, and to the disk if not all
-- went through.
abbrev pub offer : Turn → Sending → Sending
offer r s = record s {
  offered_tcp = if r.block_sending_1 then s.offered_tcp else s.offered_tcp + 1;
  offered_store = if sent_whole r then s.offered_store else s.offered_store + 1;
}

abbrev pub is_err_empty : Status → Bool
is_err_empty Status.err_empty = true
is_err_empty _ = false

-- The statistics of the segment, which a `continue` passes over when sending is blocked.
abbrev pub count_segment : Turn → Sending → Sending
count_segment r s =
    if is_ok r.marked && r.block_sending_1
    then s
    else if sent_whole r
    then record s { whole_segment_send_directly = s.whole_segment_send_directly + 1 }
    else record s { half_segment_send_directly = s.half_segment_send_directly + 1 }

abbrev pub all_zero : List ℕ → Bool
all_zero [] = true
all_zero (b ∷ bs) = if b == 0 then all_zero bs else false

-- The sleep at the end of a round, when the last 16 had no segment.
abbrev pub rest_if_quiet : Sending → Sending
rest_if_quiet s = if all_zero s.bytes then record s { slept = s.slept + 1 } else s

abbrev pub has_segment : Turn → Bool
has_segment r = memory_first r && r.popped

-- The last emptied segment, when the program is about to exit, ends the loop.
abbrev pub is_last : Turn → Bool
is_last r = has_segment r && (is_err_empty r.marked && r.cleaned_segments)

-- A round up to the test for the last segment.
abbrev pub work : Turn → Sending → Sending
work r s =
    if has_segment r then offer r (shut_gate (note_round 1 s)) else let_files_in r (note_round 0 s)

-- After it. A `continue` passes over the sleep too.
abbrev pub finish_round : Turn → Sending → Sending
finish_round r s =
    if has_segment r
    then (if is_ok r.marked && r.block_sending_1 then s else rest_if_quiet (count_segment r s))
    else rest_if_quiet s

abbrev pub others_set_gate : Option GatewayOpenStat → Sending → Sending
others_set_gate none s = s
others_set_gate (some g) s = record s { pagestack_gateway_open_val = g }

-- After the loop.
abbrev pub last_close : Sending → Sending
last_close s =
    if is_open s.pagestack_gateway_open_val
    then record s { pagestack_gateway_open_val = gws_close }
    else s

-- One whole round.
abbrev pub round : Turn → Sending → Sending
round r s = others_set_gate r.set_by_others (finish_round r (work r s))

-- The thread; with it, whether it ended.
unfoldable pub process_filled_tcp_segment_proc : List Turn → Sending → Sending × Bool
process_filled_tcp_segment_proc [] s = (s, false)
process_filled_tcp_segment_proc (r ∷ rs) s =
    let rest = process_filled_tcp_segment_proc rs (round r s) in
    if r.quit_noloss_data_thread_4
    then (last_close s, true)
    else if is_last r
    then (last_close (work r s), true)
    else rest
