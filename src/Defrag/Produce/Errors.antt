-- ===== src/Defrag/Produce/Errors.antt =====
-- What defragment_pcap_data does with frames that it cannot use, and with pushes that fail.
use vs_slns.Base.{ℕ, ◌≡◌, refl, false, some, arith, Status, err_canceled, is_ok, returns, Holds}
use vs_slns.Defrag.Types.{Env, Bridge, CapturedFrame, Counters, UdpPart, Timeval, zero_part}
use vs_slns.Defrag.Frame.{Fields, Datagram, fields_of, frame_fields, datagram}
use vs_slns.Defrag.Frame.Checks.{IsUdpFrame, frame_fields-IsUdpFrame}
use vs_slns.Defrag.Produce.Cases.{counted, defragment_cases}
use vs_slns.Defrag.Produce.{
  drop_old, drop_full, drop_overfed, refresh, push_failed, whole_packet, first_fragment,
  other_fragment, store_fragment, defragment_pcap_data, count_unordered, count_bad,
}

module _ (env : Env) where
  refresh_cached :
      (now : Timeval) (p : UdpPart) (c : Counters)
      → (refresh env now (p, c)).1.l1_cache_cached_ipv4s ≡ c.l1_cache_cached_ipv4s
  unfolding refresh drop_old drop_full drop_overfed
  refresh_cached now p c = ground arith

  -- What is left of a bridge when a frame that passed its checks was not stored: the slot is empty,
  -- nobody is woken, and the count of stored fragments stays.
  abbrev pub Abandons : Bridge env → ℕ → Status × Bridge env → Type 0
  Abandons b id r =
      is_ok r.0 ≡ false
      → (r.1.ids id ≡ zero_part)
        × (r.1.gateway ≡ b.gateway)
        × (r.1.counters.l1_cache_cached_ipv4s ≡ b.counters.l1_cache_cached_ipv4s)

  module _ (b : Bridge env) (f : CapturedFrame) (h : Fields) (d : Datagram) where
    whole_packet-Abandons : Holds (Abandons b h.udp_pkt_id) (whole_packet env b f h d)
    unfolding whole_packet push_failed
    whole_packet-Abandons = ground arith

    first_fragment-Abandons : Holds (Abandons b h.udp_pkt_id) (first_fragment env b f h d)
    unfolding first_fragment push_failed
    first_fragment-Abandons = ground (
      arith,
      refresh_cached f.ts (b.ids h.udp_pkt_id)
          (count_unordered env (b.ids h.udp_pkt_id) b.counters),
    )

    other_fragment-Abandons : Holds (Abandons b h.udp_pkt_id) (other_fragment env b f h d)
    unfolding other_fragment push_failed
    other_fragment-Abandons = ground (arith, refresh_cached f.ts (b.ids h.udp_pkt_id) b.counters)

    store_fragment-Abandons : Holds (Abandons b h.udp_pkt_id) (store_fragment env b f h d)
    unfolding store_fragment
    store_fragment-Abandons =
        ground (arith, whole_packet-Abandons, first_fragment-Abandons, other_fragment-Abandons)

module _ (env : Env) (b : Bridge env) (f : CapturedFrame) where
  -- A frame that is no captured IPv4 frame with UDP is refused with `errCanceled`; the count of bad
  -- structures is all that changes.
  pub defragment_pcap_data-rejects :
      ¬ IsUdpFrame env f
      → defragment_pcap_data env b f
        ≡ returns (err_canceled, record b { counters = count_bad b.counters })
  defragment_pcap_data-rejects bad =
      defragment_cases env b f
        (λ r. r ≡ returns (err_canceled, record b { counters = count_bad b.counters })) (λ _. refl)
        (λ e _. absurd (bad (frame_fields-IsUdpFrame env f e)))
        λ d e _. absurd (bad (frame_fields-IsUdpFrame env f e))

  -- If a frame that passed its checks is not stored, whether for a bad offset, for its size or
  -- because a push failed, its slot is cleared, the semaphore is not posted and the count of stored
  -- fragments stays.
  pub defragment_pcap_data-Abandons :
      {d : Datagram}
      → frame_fields env f ≡ some (fields_of env f)
      → datagram env f (fields_of env f) ≡ some d
      → Holds (Abandons env b (fields_of env f).udp_pkt_id) (defragment_pcap_data env b f)
  defragment_pcap_data-Abandons {d} e k =
      defragment_cases env b f (Holds (Abandons env b (fields_of env f).udp_pkt_id)) (λ n. cc)
        (λ _ n. cc) λ d' _ _. store_fragment-Abandons env (counted env b f) f (fields_of env f) d'
