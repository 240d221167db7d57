-- ===== src/Defrag/Tests.antt =====
-- Runs of the defragmentator on sample frames.
use vs_slns.Base.{
  ℕ, ◌≡◌, refl, List, [], ◌∷◌, slice, Outcome, returns, ◌>>=◌, Status, err_ok, err_general,
  err_timeout, write,
}
use vs_slns.Defrag.Types.{CapturedFrame}
use vs_slns.Defrag.Frame.{frame_fields, datagram}
use vs_slns.Defrag.Produce.{
  defragment_pcap_data, store_fragment, whole_packet, first_fragment, other_fragment, push_both,
  refresh, drop_old, drop_full, drop_overfed,
}
use vs_slns.Defrag.Wait
use vs_slns.Defrag.Wait.{Wake, produce}
use vs_slns.Defrag.Consume
use vs_slns.Defrag.Pop.{poped_defraged_packet, take, finish, deliver_whole, deliver_parts, give_up}
use vs_slns.Defrag.Samples.{
  env, fresh, small, first_part, last_part, tcp_frame, no_out, noon, one_timeout,
}

-- The frames are filed, then the consumer is called with room for 100 bytes: its status and the
-- payload that it hands out.
delivered : List CapturedFrame → Outcome (Status × List ℕ)
delivered fs = produce env (fresh 9000) fs >>= λ b.
    poped_defraged_packet env one_timeout noon 100 b no_out >>= λ r.
    returns (r.0, slice r.2.buf 0 r.2.len)

delivered-small : delivered (small ∷ []) ≡ returns (err_ok, 65 ∷ 66 ∷ [])
unfolding delivered poped_defraged_packet take finish deliver_whole deliver_parts give_up produce
    defragment_pcap_data store_fragment whole_packet push_both frame_fields datagram slice write
    Wait.wait_parts Consume.update_stat
delivered-small = refl

parts_delivered :
    delivered (first_part ∷ last_part ∷ [])
    ≡ returns (err_ok, 65 ∷ 66 ∷ 67 ∷ 68 ∷ 69 ∷ 70 ∷ 71 ∷ 72 ∷ 73 ∷ 74 ∷ [])
unfolding delivered poped_defraged_packet take finish deliver_whole deliver_parts give_up produce
    defragment_pcap_data store_fragment first_fragment other_fragment push_both refresh drop_old
    drop_full drop_overfed frame_fields datagram slice write Wait.wait_parts Consume.update_stat
    Consume.copy_parts Consume.ignore
parts_delivered = refl

-- Without the last fragment the consumer gives up.
part_given_up : delivered (first_part ∷ []) ≡ returns (err_general, [])
unfolding delivered poped_defraged_packet take finish deliver_whole deliver_parts give_up produce
    defragment_pcap_data store_fragment first_fragment push_both refresh drop_old drop_full
    drop_overfed frame_fields datagram slice write Wait.wait_parts Consume.update_stat
    Consume.ignore
part_given_up = refl

tcp_refused : delivered (tcp_frame ∷ []) ≡ returns (err_timeout, [])
unfolding delivered poped_defraged_packet take produce defragment_pcap_data frame_fields datagram
    slice
tcp_refused = refl
