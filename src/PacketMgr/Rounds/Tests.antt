-- ===== src/PacketMgr/Rounds/Tests.antt =====
-- A few rounds, and the theorems at them.
use vs_slns.Base.{
  ℕ, ◌≡◌, refl, true, false, List, [], ◌∷◌, ◌++◌, Option, none, Status, replicate, arith,
}
use vs_slns.PersistCache.{gws_close}
use vs_slns.PacketMgr.Rounds.{Turn, Sending, process_filled_tcp_segment_proc}
use vs_slns.PacketMgr.Rounds.Quiet.{process-sleeps}
use vs_slns.PacketMgr.Rounds.Ledger.{unsent, openings}
use vs_slns.PacketMgr.Evacuate.{
  Look, CopyCost, Release, countdown_of, set_countdown, evacuate_round,
  evacuate_long_time_sediment_segment_proc, AllAtMost, evacuate-AllAtMost,
}

abbrev idle_round : Turn
idle_round = record {
  quit_noloss_data_thread_4 = false;
  latest_huge_memory_sec = 0;
  latest_memmap_sec = 0;
  memory_not_before_disk = false;
  block_sending_1 = false;
  skips_section = false;
  popped = false;
  items_sent = true;
  marked = Status.err_ok;
  cleaned_segments = false;
  set_by_others = none;
}

abbrev faulty_round : Turn
faulty_round = record idle_round { popped = true; items_sent = false }

abbrev quit_round : Turn
quit_round = record idle_round { quit_noloss_data_thread_4 = true }

abbrev new_thread : Sending
new_thread = record {
  bytes = replicate 16 0;
  idx = 0;
  pagestack_gateway_open_val = gws_close;
  pagestack_gateway_open_sem = 0;
  offered_tcp = 0;
  offered_store = 0;
  close_gate_cnt = 0;
  open_gate_cnt = 0;
  open_gate_no_segment_cnt = 0;
  open_gate_l3_order_cnt = 0;
  whole_segment_send_directly = 0;
  half_segment_send_directly = 0;
  slept = 0;
}

-- Two sleeps, a segment, 15 rounds without a sleep, and one more sleep.
abbrev rounds : List Turn
rounds = idle_round ∷ idle_round ∷ faulty_round ∷ (replicate 16 idle_round ++ (quit_round ∷ []))

process-sleeps_example : (process_filled_tcp_segment_proc rounds new_thread).0.slept ≡ 3
process-sleeps_example = process-sleeps rounds new_thread refl refl

-- The segment with a fault is offered to the disk, and the round before it opens the gateway.
one_unsent : unsent (idle_round ∷ faulty_round ∷ []) ≡ 1
one_unsent = refl

two_openings : openings (idle_round ∷ faulty_round ∷ idle_round ∷ []) gws_close ≡ 2
two_openings = refl

abbrev settings : CopyCost
settings = record { pkt_fit_in_l1_cache = 1000000; l1_2_l2_byte_copy_latency_nsec = 10 }

abbrev look : ℕ → Look
look now = record {
  quit = false;
  has_oldest = true;
  input_load = 1000;
  current_items = 4;
  current_bytes = 4000;
  now = now;
}

-- 99999 packets could be moved in what is left of a second.
room_left : countdown_of settings (look 10) ≡ Option.some 99999
unfolding countdown_of
room_left = refl

-- What the program begins with.
abbrev at_start : Release
at_start = record { release_lock_countdown = 0; last_assign = 0; tried = [] }

evacuate-AllAtMost_example :
    AllAtMost 0
      (evacuate_long_time_sediment_segment_proc settings (look 10 ∷ look 20 ∷ []) at_start).tried
evacuate-AllAtMost_example =
    evacuate-AllAtMost settings (look 10 ∷ look 20 ∷ []) at_start 0 (omega arith) tt

tried_twice :
    (evacuate_long_time_sediment_segment_proc settings (look 10 ∷ look 20 ∷ []) at_start).tried
    ≡ 0 ∷ 0 ∷ []
unfolding evacuate_long_time_sediment_segment_proc evacuate_round countdown_of set_countdown
tried_twice = refl
