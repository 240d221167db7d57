-- ===== src/Defrag/Pop/Ends.antt =====
-- poped_defraged_packet comes to an end.
use vs_slns.Base.{ℕ, ◌*◌, ◌<◌, ◌≡◌, true, List, arith, returns, Returns, Returns->>=}
use vs_slns.Defrag.Types.{Env, Bridge, Now, DfrgUdpMetadata}
use vs_slns.Defrag.Produce.Slots.{AllInRange}
use vs_slns.Defrag.Wait.{Wake, wait_parts}
use vs_slns.Defrag.Wait.Ends.{times_out, wait_parts-Returns}
use vs_slns.Defrag.Consume.{Out}
use vs_slns.Defrag.Consume
use vs_slns.Defrag.Pop.Clears.{finish-AllInRange}
use vs_slns.Defrag.Pop.{finish, take, poped_defraged_packet}

module _ (env : Env) (guard : env.buffer_size < 9 * env.ethernet_mtu) where
  take-Returns :
      (wakes : List Wake) (now : Now) (room : ℕ) (tmp : DfrgUdpMetadata) (out : Out)
      (b : Bridge env)
      → times_out wakes ≡ true
      → AllInRange env b
      → Returns (λ r. AllInRange env r.1) (take env wakes now room tmp out b)
  unfolding take Consume.ignore
  take-Returns wakes now room tmp out b t v = ground (
    arith,
    Returns->>= (AllInRange env) (λ r. AllInRange env r.1)
        (λ b'. returns (finish env now room tmp out b'))
        (λ b' v'. finish-AllInRange env now room tmp out b' v')
        (wait_parts env wakes b tmp.hdr.udp_pkt_id tmp.hdr.tm)
        (wait_parts-Returns env guard wakes b tmp.hdr.udp_pkt_id tmp.hdr.tm t v),
  )

  -- The consumer returns, and no call meanwhile stores outside `ring_addr`, whatever frames come in
  -- while it waits, if the schedule has a sleep that times out, every slot's position is one that
  -- `ring_addr` has, and `BUFFER_SIZE` is below nine MTUs. The positions are in range afterwards.
  -- What is written to the caller's buffer has no bound here, as the source gives `pop` no size.
  pub poped_defraged_packet-Returns :
      (wakes : List Wake) (now : Now) (room : ℕ) (b : Bridge env) (out : Out)
      → times_out wakes ≡ true
      → AllInRange env b
      → Returns (λ r. AllInRange env r.1) (poped_defraged_packet env wakes now room b out)
  unfolding poped_defraged_packet
  poped_defraged_packet-Returns wakes now room b out t v =
      let next = env.pop b.raw_xudp_cache env.sizeof_metadata env.socket_def_timeout_sec true in
      ground (
        arith,
        take-Returns wakes now room (env.of_bytes next.1) out (record b { raw_xudp_cache = next.2 })
            t v,
      )
