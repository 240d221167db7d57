-- ===== src/Defrag/Pop/Counts.antt =====
-- What a call of poped_defraged_packet does to the statistics.
use vs_slns.Base.{
  ℕ, ◌≡◌, refl, sym, true, List, arith, if◌then◌else◌, is_ok, returns, Holds, Holds->>=,
}
use vs_slns.Defrag.Types.{Env, Bridge, Now, DfrgUdpMetadata, UdpStat, CapturedFrame}
use vs_slns.Defrag.Frame.{Fields, Datagram, fields_of}
use vs_slns.Defrag.Produce.{
  whole_packet, first_fragment, other_fragment, store_fragment, defragment_pcap_data, push_failed,
}
use vs_slns.Defrag.Produce.Cases.{counted, defragment_cases}
use vs_slns.Defrag.Wait.{
  Wake, Sleep, posted, timed_out, interrupted, no_clock, after_sleep, wait_parts,
}
use vs_slns.Defrag.Wait.Keeps.{wait_parts-Holds}
use vs_slns.Defrag.Consume.{Out}
use vs_slns.Defrag.Consume
use vs_slns.Defrag.Pop.{
  Popped, finish, take, poped_defraged_packet, give_up, deliver_whole, deliver_parts,
}

module _ (env : Env) where
  -- The statistics after a call that began with `old`.
  abbrev pub Records : Now → UdpStat env.Metr → Popped env → Type 0
  Records now old r =
      r.1.stat ≡ (if is_ok r.0 then Consume.update_stat env now r.2.len old else old)

  finish-Records :
      (now : Now) (room : ℕ) (tmp : DfrgUdpMetadata) (out : Out) (b : Bridge env)
      → Records now b.stat (finish env now room tmp out b)
  unfolding finish give_up deliver_whole deliver_parts Consume.ignore
  finish-Records now room tmp out b = ground arith

  store_fragment_stat :
      (b : Bridge env) (f : CapturedFrame) (h : Fields) (d : Datagram)
      → Holds (λ r. r.1.stat ≡ b.stat) (store_fragment env b f h d)
  unfolding store_fragment whole_packet first_fragment other_fragment push_failed
  store_fragment_stat b f h d = ground arith

  defragment_pcap_data_stat :
      (old : UdpStat env.Metr) (b : Bridge env) (f : CapturedFrame)
      → b.stat ≡ old
      → Holds (λ r. r.1.stat ≡ old) (defragment_pcap_data env b f)
  defragment_pcap_data_stat old b f e =
      defragment_cases env b f (Holds (λ r. r.1.stat ≡ old)) (λ _. e) (λ _ _. e)
        λ d _ _. rw (sym e) (store_fragment_stat (counted env b f) f (fields_of env f) d)

  after_sleep_stat :
      (old : UdpStat env.Metr) (s : Sleep) (b : Bridge env)
      → b.stat ≡ old
      → (after_sleep env s b).stat ≡ old
  after_sleep_stat old posted b e = e
  after_sleep_stat old timed_out b e = e
  after_sleep_stat old interrupted b e = e
  after_sleep_stat old no_clock b e = e

  module _ (wakes : List Wake) (now : Now) (room : ℕ) (out : Out) where
    take-Records :
        (tmp : DfrgUdpMetadata) (b : Bridge env)
        → Holds (Records now b.stat) (take env wakes now room tmp out b)
    unfolding take Consume.ignore
    take-Records tmp b = ground (
      arith,
      Holds->>= (λ b'. b'.stat ≡ b.stat) (Records now b.stat)
          (λ b'. returns (finish env now room tmp out b'))
          (λ b' e. rw (sym e) (finish-Records now room tmp out b'))
          (wait_parts env wakes b tmp.hdr.udp_pkt_id tmp.hdr.tm)
          (wait_parts-Holds env (λ b'. b'.stat ≡ b.stat) (defragment_pcap_data_stat b.stat)
            (after_sleep_stat b.stat) wakes b tmp.hdr.udp_pkt_id tmp.hdr.tm refl),
    )

    -- A call counts its datagram, with the length that it hands to the caller, exactly if it returns
    -- `errOK`; a call that fails leaves the statistics as they were, and so do the frames that the
    -- producer files while the consumer waits.
    pub poped_defraged_packet-Records :
        (b : Bridge env)
        → Holds (Records now b.stat) (poped_defraged_packet env wakes now room b out)
    unfolding poped_defraged_packet
    poped_defraged_packet-Records b = ground (
      arith,
      take-Records
          (env.of_bytes
            (env.pop b.raw_xudp_cache env.sizeof_metadata env.socket_def_timeout_sec true).1)
          (record b {
            raw_xudp_cache =
                (env.pop b.raw_xudp_cache env.sizeof_metadata env.socket_def_timeout_sec true).2;
          }),
    )
