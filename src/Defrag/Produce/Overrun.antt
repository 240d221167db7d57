-- ===== src/Defrag/Produce/Overrun.antt =====
-- The store to `ring_addr[ last_pos + 1 ]`: when it leaves the array, and what keeps it inside.
use vs_slns.Base.{
  ◌+◌, ◌-◌, ◌*◌, ◌≤◌, ◌<◌, ◌≡◌, ◌∙◌, ◌≢◌, ◌⊎◌, true, false, some, arith, slice, Status, is_ok,
  undefined,
}
use vs_slns.Defrag.Types.{
  Env, Bridge, CapturedFrame, Counters, UdpPart, Timeval, maximum_fragment_made, dirty,
}
use vs_slns.Defrag.Frame.{Fields, Datagram, sizeof_udphdr, fields_of, frame_fields, datagram}
use vs_slns.Defrag.Produce.Cases.{
  counted, defragment_cases, defragment_stored, store_fragment_later,
}
use vs_slns.Defrag.Produce.{
  drop_old, drop_full, drop_overfed, refresh, push_both, whole_packet, first_fragment,
  other_fragment, store_fragment, defragment_pcap_data, metadata,
}
use vs_slns.Defrag.Produce.Slots.{InRange, AllInRange}

module _ (env : Env) where
  refresh_last_pos :
      (now : Timeval) (p : UdpPart) (c : Counters)
      → ((refresh env now (p, c)).0.last_pos ≡ p.last_pos)
        ⊎ ((refresh env now (p, c)).0.last_pos ≡ 0)
  unfolding refresh drop_old drop_full drop_overfed
  refresh_last_pos now p c = ground arith

  module _ (b : Bridge env) (f : CapturedFrame) (h : Fields) (d : Datagram) where
    -- The slot that the store goes to.
    abbrev pub refreshed : UdpPart
    refreshed = (refresh env f.ts (b.ids h.udp_pkt_id, b.counters)).0

    abbrev pub pushed : Status
    pushed =
        (push_both env b.raw_xudp_cache
          (metadata env f h (h.frag_offset - sizeof_udphdr) 0 h.frag_len)
          (slice f.bytes d.payload h.frag_len) h.frag_len).0

    other_fragment-overruns :
        refreshed.last_pos ≡ 9
        → sizeof_udphdr < h.frag_offset
        → (b.ids h.udp_pkt_id).last_pos * env.ethernet_mtu + h.frag_len ≤ env.buffer_size
        → is_ok pushed ≡ true
        → other_fragment env b f h d ≡ undefined
    unfolding other_fragment
    other_fragment-overruns full later fits stored = ground arith

    other_fragment-safe : refreshed.last_pos < 9 → other_fragment env b f h d ≢ undefined
    unfolding other_fragment
    other_fragment-safe room = ground arith

    store_fragment-safe :
        InRange (b.ids h.udp_pkt_id)
        → env.buffer_size < 9 * env.ethernet_mtu
        → store_fragment env b f h d ≢ undefined
    unfolding store_fragment whole_packet first_fragment other_fragment
    store_fragment-safe v guard =
        ground (arith, refresh_last_pos f.ts (b.ids h.udp_pkt_id) b.counters)

  -- With `BUFFER_SIZE` below nine MTUs the size check keeps every store inside `ring_addr`.
  pub defragment_pcap_data-safe :
      (b : Bridge env) (f : CapturedFrame)
      → AllInRange env b
      → env.buffer_size < 9 * env.ethernet_mtu
      → defragment_pcap_data env b f ≢ undefined
  defragment_pcap_data-safe b f v guard =
      defragment_cases env b f (λ r. r ≢ undefined) (λ _ e. cc) (λ _ _ e. cc)
        λ d _ _. store_fragment-safe (counted env b f) f (fields_of env f) d (v _) guard

  refresh_current :
      (now : Timeval) (p : UdpPart) (c : Counters)
      → dirty p ≡ true
      → p.last_pos < maximum_fragment_made
      → env.diff_ms_gt now p.tm env.udp_id_valid_until_timeout_msec ≡ false
      → (p.data_length ≡ 0) ⊎ (p.data_progress ≤ p.data_length)
      → (refresh env now (p, c)).0 ≡ p
  unfolding refresh drop_old drop_full drop_overfed
  refresh_current now p c used room young fits = ground arith

  -- Without that bound the tenth later fragment of a datagram is stored outside the array: the test
  -- `last_pos >= MAXIMUM_FRAGMENT_MADE` lets position 9 pass, and the store goes to position 10.
  pub defragment_pcap_data-overruns :
      (b : Bridge env) (f : CapturedFrame) {d : Datagram}
      → let h = fields_of env f in
        let p = b.ids h.udp_pkt_id in
        frame_fields env f ≡ some h
        → datagram env f h ≡ some d
        → sizeof_udphdr < h.frag_offset
        → p.last_pos ≡ 9
        → dirty p ≡ true
        → env.diff_ms_gt f.ts p.tm env.udp_id_valid_until_timeout_msec ≡ false
        → (p.data_length ≡ 0) ⊎ (p.data_progress ≤ p.data_length)
        → p.last_pos * env.ethernet_mtu + h.frag_len ≤ env.buffer_size
        → is_ok (pushed b f h d) ≡ true
        → defragment_pcap_data env b f ≡ undefined
  defragment_pcap_data-overruns b f {d} e k later full used young fits size stored =
      defragment_stored env b f e k
      ∙ store_fragment_later env b' f h d (omega arith)
      ∙ other_fragment-overruns b' f h d (rw current full) later size stored
    where
      b' : Bridge env
      b' = counted env b f

      h : Fields
      h = fields_of env f

      current : refreshed b' f h d ≡ b.ids h.udp_pkt_id
      current = refresh_current f.ts (b.ids h.udp_pkt_id) b'.counters used (omega arith) young fits
