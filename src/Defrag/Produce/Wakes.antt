-- ===== src/Defrag/Produce/Wakes.antt =====
-- When the producer wakes the consumer.
use vs_slns.Base.{
  ℕ, ◌+◌, ◌≡◌, ◌≢◌, true, false, some, arith, if◌then◌else◌, sub16, Status, is_ok, Holds,
}
use vs_slns.Defrag.Types.{Env, Bridge, CapturedFrame, complete}
use vs_slns.Defrag.Frame.{Fields, Datagram, sizeof_udphdr, fields_of, frame_fields, datagram}
use vs_slns.Defrag.Produce.Cases.{counted, defragment_stored}
use vs_slns.Defrag.Produce.{
  push_failed, whole_packet, first_fragment, other_fragment, store_fragment, defragment_pcap_data,
}

module _ (env : Env) where
  -- A stored fragment posts the semaphore exactly if its slot is complete after it.
  abbrev pub PostsIfComplete : Bridge env → ℕ → Status × Bridge env → Type 0
  PostsIfComplete b id r =
      is_ok r.0 ≡ true → r.1.gateway ≡ (if complete (r.1.ids id) then b.gateway + 1 else b.gateway)

  module _ (b : Bridge env) (f : CapturedFrame) (h : Fields) (d : Datagram) where
    first_fragment_posts : Holds (PostsIfComplete b h.udp_pkt_id) (first_fragment env b f h d)
    unfolding first_fragment push_failed
    first_fragment_posts = ground arith

    other_fragment_posts : Holds (PostsIfComplete b h.udp_pkt_id) (other_fragment env b f h d)
    unfolding other_fragment push_failed
    other_fragment_posts = ground arith

    whole_packet_posts :
        sub16 d.udp_dg_len sizeof_udphdr ≢ 0
        → Holds (PostsIfComplete b h.udp_pkt_id) (whole_packet env b f h d)
    unfolding whole_packet push_failed
    whole_packet_posts ne = ground arith

    store_fragment_posts :
        (h.frag_offset ≡ 0 → h.more ≡ false → sub16 d.udp_dg_len sizeof_udphdr ≢ 0)
        → Holds (PostsIfComplete b h.udp_pkt_id) (store_fragment env b f h d)
    unfolding store_fragment
    store_fragment_posts ne =
        ground (arith, whole_packet_posts, first_fragment_posts, other_fragment_posts)

  -- Whenever a frame's fragment is stored, other than an empty unfragmented datagram, the semaphore
  -- is posted exactly if the datagram is complete with it.
  pub defragment_pcap_data-posts :
      (b : Bridge env) (f : CapturedFrame) {d : Datagram}
      → let h = fields_of env f in
        frame_fields env f ≡ some h
        → datagram env f h ≡ some d
        → (h.frag_offset ≡ 0 → h.more ≡ false → sub16 d.udp_dg_len sizeof_udphdr ≢ 0)
        → Holds (PostsIfComplete b h.udp_pkt_id) (defragment_pcap_data env b f)
  defragment_pcap_data-posts b f {d} e k full =
      rw (defragment_stored env b f e k) (stored (fields_of env f) full)
    where
      stored :
          (h : Fields)
          → (h.frag_offset ≡ 0 → h.more ≡ false → sub16 d.udp_dg_len sizeof_udphdr ≢ 0)
          → Holds (PostsIfComplete b h.udp_pkt_id) (store_fragment env (counted env b f) f h d)
      stored h ne = store_fragment_posts (counted env b f) f h d ne
