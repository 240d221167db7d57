-- ===== src/Defrag/Witnesses.antt =====
-- The theorems on the defragmentator, each at a sample input.
use vs_slns.Base.{
  true, is_ok, ℕ, ◌≤◌, ◌≡◌, refl, inl, [], ◌∷◌, some, arith, update, undefined, Holds, Returns,
}
use vs_slns.Defrag.Types.{Bridge, CapturedFrame, UdpPart, zero_part, no_addr}
use vs_slns.Defrag.Frame.{Datagram, fields_of, frame_fields, datagram}
use vs_slns.Defrag.Frame.Checks.{IsUdpFrame}
use vs_slns.Defrag.Produce.{whole_slot, metadata, defragment_pcap_data, push_both}
use vs_slns.Defrag.Produce.Slots.{
  AllInRange, zero_part-InRange, update-AllInRange, defragment_pcap_data-keeps,
}
use vs_slns.Defrag.Produce.Overrun.{defragment_pcap_data-overruns}
use vs_slns.Defrag.Produce.Whole.{recaptured}
use vs_slns.Defrag.Produce.Wakes.{PostsIfComplete, defragment_pcap_data-posts}
use vs_slns.Defrag.Wait.Ends.{defragment_pcap_data-Returns}
use vs_slns.Defrag.Pop.{poped_defraged_packet}
use vs_slns.Defrag.Pop.Clears.{poped_defraged_packet-clears}
use vs_slns.Defrag.Pop.Ends.{poped_defraged_packet-Returns}
use vs_slns.Defrag.RoundTrip.{Handed, whole_round_trip}
use vs_slns.Defrag.Samples.{
  log_laws, env, env_of, fresh, small, last_part, no_out, noon, one_timeout, at_second, image,
  empty_ring,
}

fresh-AllInRange : (size : ℕ) → AllInRange (env_of size) (fresh size)
fresh-AllInRange size i = zero_part-InRange

-- The bridge after `small` was filed.
abbrev small_filed : Bridge env
small_filed = record (fresh 9000) {
  ids = update (λ i. zero_part) 7 (whole_slot env zero_part (at_second 100) 2);
  gateway = 1;
  raw_xudp_cache = record empty_ring {
    log = image (metadata env small (fields_of env small) 77 2 2) ∷ (65 ∷ 66 ∷ []) ∷ [];
    queue = image (metadata env small (fields_of env small) 77 2 2) ∷ (65 ∷ 66 ∷ []) ∷ [];
  };
}

small_filed-AllInRange : AllInRange env small_filed
small_filed-AllInRange =
    update-AllInRange env (λ i. zero_part) 7 (whole_slot env zero_part (at_second 100) 2)
      (λ i. zero_part-InRange) (record { room = refl; position = omega arith })

abbrev last_datagram : Datagram
last_datagram = record { udp_dg_len = 0; payload = 34 }

last_fields : frame_fields env last_part ≡ some (fields_of env last_part)
unfolding frame_fields
last_fields = refl

last_payload : datagram env last_part (fields_of env last_part) ≡ some last_datagram
unfolding datagram
last_payload = refl

poped_defraged_packet-Returns_example :
    Returns
      (λ r. AllInRange env r.1)
      (poped_defraged_packet env one_timeout noon 100 small_filed no_out)
poped_defraged_packet-Returns_example =
    poped_defraged_packet-Returns env (omega arith) one_timeout noon 100 small_filed no_out refl
      small_filed-AllInRange

defragment_pcap_data-Returns_example :
    Returns (λ r. AllInRange env r.1) (defragment_pcap_data env small_filed last_part)
defragment_pcap_data-Returns_example =
    defragment_pcap_data-Returns env (omega arith) small_filed last_part small_filed-AllInRange

poped_defraged_packet-clears_example :
    Holds
      (λ r. r.1.ids 7 ≡ zero_part)
      (poped_defraged_packet env one_timeout noon 100 small_filed no_out)
poped_defraged_packet-clears_example =
    poped_defraged_packet-clears env one_timeout noon 100 small_filed no_out refl refl refl

defragment_pcap_data-keeps_example :
    Holds (λ r. r.1.ids 8 ≡ zero_part) (defragment_pcap_data env small_filed last_part)
defragment_pcap_data-keeps_example =
    defragment_pcap_data-keeps env small_filed last_part 8 (omega arith)

defragment_pcap_data-posts_example :
    Holds (PostsIfComplete env small_filed 7) (defragment_pcap_data env small_filed last_part)
defragment_pcap_data-posts_example =
    defragment_pcap_data-posts env small_filed last_part last_fields last_payload
      λ o m. absurd (omega (arith, o))

-- A slot with ten fragments, and an environment whose `BUFFER_SIZE` lets one more pass.
abbrev full_slot : UdpPart
full_slot = record {
  ring_addr = no_addr;
  last_pos = 9;
  fragment_delay_msec = 30;
  data_length = 0;
  data_progress = 0;
  tm = at_second 100;
}

abbrev full : Bridge (env_of 15000)
full = record (fresh 15000) { ids = update (λ i. zero_part) 7 full_slot }

defragment_pcap_data-overruns_example :
    defragment_pcap_data (env_of 15000) full last_part ≡ undefined
unfolding frame_fields datagram push_both
defragment_pcap_data-overruns_example =
    defragment_pcap_data-overruns (env_of 15000) full last_part {d = last_datagram} refl refl
      (omega arith) refl refl refl (inl refl) (omega arith) refl

-- A later fragment of which 30 bytes were captured, and one of which 23 were.
abbrev short_part : CapturedFrame
short_part = record last_part { caplen = 30 }

small-IsUdpFrame : (n : ℕ) → 42 ≤ n → IsUdpFrame env (recaptured env (fresh 9000) small n)
small-IsUdpFrame n h = record {
  ethernet = omega arith;
  ethertype = refl;
  captured = omega arith;
  header_min = omega arith;
  header_max = omega arith;
  header_captured = omega arith;
  total = omega arith;
  protocol = refl;
}

abbrev small_datagram : Datagram
small_datagram = record { udp_dg_len = 10; payload = 42 }

whole_round_trip_example :
    Holds
      (λ r.
        is_ok r.0 ≡ true
        → Returns
            (Handed env (log_laws 9000) small (fields_of env small) small_datagram)
            (poped_defraged_packet env [] noon 100 r.1 no_out))
      (defragment_pcap_data env (fresh 9000) small)
unfolding frame_fields datagram log_laws
whole_round_trip_example =
    whole_round_trip env (log_laws 9000) (fresh 9000) small {d = small_datagram} [] noon 100 no_out
      refl refl refl refl refl (omega arith) (omega arith)
