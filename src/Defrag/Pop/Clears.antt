-- ===== src/Defrag/Pop/Clears.antt =====
-- The slots under the consumer: the one it takes is empty afterwards, the others stay.
use vs_slns.Base.{
  ℕ, ◌≡◌, true, List, arith, Status, update, is_ok, returns, ◌>>=◌, Holds, Holds-bind,
}
use vs_slns.Defrag.Types.{Env, Bridge, Now, DfrgUdpMetadata, zero_part, UdpPart, dirty}
use vs_slns.Defrag.Produce.Slots.{AllInRange, update-AllInRange, zero_part-InRange}
use vs_slns.Defrag.Wait.{Wake, wait_parts}
use vs_slns.Defrag.Consume.{Out}
use vs_slns.Defrag.Consume
use vs_slns.Defrag.Pop.{finish, take, poped_defraged_packet, give_up, deliver_whole, deliver_parts}

module _ (env : Env) where
  -- Whatever the outcome, the decision after the wait empties the datagram's slot and leaves every
  -- other slot as it was.
  pub finish_ids :
      (now : Now) (room : ℕ) (tmp : DfrgUdpMetadata) (out : Out) (b : Bridge env)
      → (finish env now room tmp out b).1.ids ≡ update b.ids tmp.hdr.udp_pkt_id zero_part
  unfolding finish give_up deliver_whole deliver_parts Consume.ignore
  finish_ids now room tmp out b = ground arith

  pub finish-AllInRange :
      (now : Now) (room : ℕ) (tmp : DfrgUdpMetadata) (out : Out) (b : Bridge env)
      → AllInRange env b
      → AllInRange env (finish env now room tmp out b).1
  finish-AllInRange now room tmp out b v =
      rw (finish_ids now room tmp out b)
        (update-AllInRange env b.ids tmp.hdr.udp_pkt_id zero_part v zero_part-InRange)

  emptied : (ids : ℕ → UdpPart) (id : ℕ) → update ids id zero_part id ≡ zero_part
  emptied ids id = ground arith

  module _ (wakes : List Wake) (now : Now) (room : ℕ) (b : Bridge env) (out : Out) where
    -- What the ring answers when the consumer asks for the next metadata.
    abbrev pub next : Status × List ℕ × env.Ring
    next = env.pop b.raw_xudp_cache env.sizeof_metadata env.socket_def_timeout_sec true

    abbrev pub next_metadata : DfrgUdpMetadata
    next_metadata = env.of_bytes next.1

    -- A marked metadata of a slot in use is waited for and decided on.
    pub poped_waits :
        is_ok next.0 ≡ true
        → next_metadata.mark_memory ≡ env.marker_mem
        → dirty (b.ids next_metadata.hdr.udp_pkt_id) ≡ true
        → poped_defraged_packet env wakes now room b out ≡ (
            wait_parts env wakes
              (record b { raw_xudp_cache = next.2 })
              next_metadata.hdr.udp_pkt_id
              next_metadata.hdr.tm
            >>= λ b'. returns (finish env now room next_metadata out b'))
    unfolding poped_defraged_packet take
    poped_waits ok m u = ground arith

    -- The consumer leaves no slot half delivered: if the metadata that it popped is marked and its
    -- slot is in use, that slot is empty when it returns, whether the datagram was delivered, was
    -- given up as incomplete, or could not be copied.
    pub poped_defraged_packet-clears :
        is_ok next.0 ≡ true
        → next_metadata.mark_memory ≡ env.marker_mem
        → dirty (b.ids next_metadata.hdr.udp_pkt_id) ≡ true
        → Holds
            (λ r. r.1.ids next_metadata.hdr.udp_pkt_id ≡ zero_part)
            (poped_defraged_packet env wakes now room b out)
    poped_defraged_packet-clears ok m u = rw (poped_waits ok m u) (
        Holds-bind (λ r. r.1.ids next_metadata.hdr.udp_pkt_id ≡ zero_part)
          (λ b'. returns (finish env now room next_metadata out b'))
          (λ b'.
            rw (finish_ids now room next_metadata out b')
              (emptied b'.ids next_metadata.hdr.udp_pkt_id))
          (wait_parts env wakes (record b { raw_xudp_cache = next.2 }) next_metadata.hdr.udp_pkt_id
            next_metadata.hdr.tm))
