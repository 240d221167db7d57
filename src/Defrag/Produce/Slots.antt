-- ===== src/Defrag/Produce/Slots.antt =====
-- The slots under the producer: their positions stay in range, and only the slot of the frame's own
-- identification number changes.
use vs_slns.Base.{
  ℕ, ◌+◌, ◌-◌, ◌<◌, ◌≡◌, refl, ◌∙◌, ◌≢◌, inl, inr, List, arith, ◌==◌, ==_iff, Bool-cases, length,
  length-set, update, slice, sub16, Holds, Holds-map, Holds-all,
}
use vs_slns.Defrag.Types.{
  Env, Bridge, CapturedFrame, Counters, UdpPart, DfrgUdpMetadata, Timeval, maximum_fragment_made,
  zero_part, be16,
}
use vs_slns.Defrag.Frame.{Fields, Datagram, sizeof_udphdr, fields_of}
use vs_slns.Defrag.Produce.Cases.{counted, defragment_cases}
use vs_slns.Defrag.Produce.{
  drop_old, drop_full, drop_overfed, refresh, push_both, push_failed, whole_packet, first_fragment,
  other_fragment, store_fragment, defragment_pcap_data, first_slot, later_slot, count_unordered,
  metadata,
}

-- The position is one that `ring_addr` has.
pub record InRange (p : UdpPart) : Type 0 where
  pub room : length p.ring_addr ≡ maximum_fragment_made
  pub position : p.last_pos < maximum_fragment_made

pub zero_part-InRange : InRange zero_part
zero_part-InRange = record { room = refl; position = omega arith }

module _ (env : Env) where
  pub refresh-InRange :
      (now : Timeval) (p : UdpPart) (c : Counters) → InRange p → InRange (refresh env now (p, c)).0
  unfolding refresh drop_old drop_full drop_overfed
  refresh-InRange now p c v = ground arith

  abbrev pub AllInRange : Bridge env → Type 0
  AllInRange b = (id : ℕ) → InRange (b.ids id)

  pub update-AllInRange :
      (ids : ℕ → UdpPart) (id : ℕ) (p : UdpPart)
      → ((i : ℕ) → InRange (ids i))
      → InRange p
      → (i : ℕ) → InRange (update ids id p i)
  update-AllInRange ids id p all v i = elim (Bool-cases (id == i)) [
    | inl e ↦ rw e v
    | inr e ↦ rw e (all i)
  ]

  first_slot-InRange :
      (p : UdpPart) (len progress : ℕ) (addr : ℕ × ℕ)
      → InRange p
      → InRange (first_slot env p len progress addr)
  first_slot-InRange p len progress addr v = record {
    room = length-set p.ring_addr 0 addr ∙ v.room;
    position = v.position;
  }

  later_slot-InRange :
      (p : UdpPart) (progress : ℕ) (addr : ℕ × ℕ)
      → InRange p
      → p.last_pos + 1 < maximum_fragment_made
      → InRange (later_slot env p progress addr)
  later_slot-InRange p progress addr v h = record {
    room = length-set p.ring_addr (p.last_pos + 1) addr ∙ v.room;
    position = omega arith;
  }

  module _ (b : Bridge env) (f : CapturedFrame) (h : Fields) (d : Datagram) where
    whole_packet-keeps :
        (i : ℕ) → i ≢ h.udp_pkt_id → Holds (λ r. r.1.ids i ≡ b.ids i) (whole_packet env b f h d)
    unfolding whole_packet push_failed
    whole_packet-keeps i ne = ground arith

    whole_packet-InRange : Holds (λ r. InRange (r.1.ids h.udp_pkt_id)) (whole_packet env b f h d)
    unfolding whole_packet push_failed
    whole_packet-InRange = ground arith

    first_fragment-keeps :
        (i : ℕ) → i ≢ h.udp_pkt_id → Holds (λ r. r.1.ids i ≡ b.ids i) (first_fragment env b f h d)
    unfolding first_fragment push_failed
    first_fragment-keeps i ne = ground arith

    first_fragment-InRange :
        InRange (b.ids h.udp_pkt_id)
        → Holds (λ r. InRange (r.1.ids h.udp_pkt_id)) (first_fragment env b f h d)
    unfolding first_fragment push_failed
    first_fragment-InRange v = ground (
      arith,
      first_slot-InRange _ len progress (push_both env b.raw_xudp_cache spec bytes progress).1
          (refresh-InRange f.ts part (count_unordered env part b.counters) v),
    )
      where
        part : UdpPart
        part = b.ids h.udp_pkt_id

        len : ℕ
        len = sub16 d.udp_dg_len sizeof_udphdr

        progress : ℕ
        progress = sub16 h.frag_len sizeof_udphdr

        spec : DfrgUdpMetadata
        spec = metadata env f h 0 len progress

        bytes : List ℕ
        bytes = slice f.bytes d.payload progress

    other_fragment-keeps :
        (i : ℕ) → i ≢ h.udp_pkt_id → Holds (λ r. r.1.ids i ≡ b.ids i) (other_fragment env b f h d)
    unfolding other_fragment push_failed
    other_fragment-keeps i ne = ground arith

    other_fragment-InRange :
        InRange (b.ids h.udp_pkt_id)
        → Holds (λ r. InRange (r.1.ids h.udp_pkt_id)) (other_fragment env b f h d)
    unfolding other_fragment push_failed
    other_fragment-InRange v = ground (
      arith,
      refresh-InRange f.ts (b.ids h.udp_pkt_id) b.counters v,
      later_slot-InRange (refresh env f.ts (b.ids h.udp_pkt_id, b.counters)).0 h.frag_len
          (push_both env b.raw_xudp_cache
            (metadata env f h (h.frag_offset - sizeof_udphdr) 0 h.frag_len)
            (slice f.bytes d.payload h.frag_len) h.frag_len).1,
    )

    store_fragment-keeps :
        (i : ℕ) → i ≢ h.udp_pkt_id → Holds (λ r. r.1.ids i ≡ b.ids i) (store_fragment env b f h d)
    unfolding store_fragment
    store_fragment-keeps i ne =
        ground
          (arith, whole_packet-keeps i ne, first_fragment-keeps i ne, other_fragment-keeps i ne)

    store_fragment-InRange :
        InRange (b.ids h.udp_pkt_id)
        → Holds (λ r. InRange (r.1.ids h.udp_pkt_id)) (store_fragment env b f h d)
    unfolding store_fragment
    store_fragment-InRange v =
        ground (arith, whole_packet-InRange, first_fragment-InRange v, other_fragment-InRange v)

  module _ (b : Bridge env) (f : CapturedFrame) where
    -- A captured frame changes the slot of its own identification number and no other.
    pub defragment_pcap_data-keeps :
        (i : ℕ)
        → i ≢ be16 f (env.size_ethernet + 4)
        → Holds (λ r. r.1.ids i ≡ b.ids i) (defragment_pcap_data env b f)
    defragment_pcap_data-keeps i ne =
        defragment_cases env b f (Holds (λ r. r.1.ids i ≡ b.ids i)) (λ _. refl) (λ _ _. refl)
          λ d _ _. store_fragment-keeps (counted env b f) f (fields_of env f) d i ne

    defragment_pcap_data-InRange :
        AllInRange b → (i : ℕ) → Holds (λ r. InRange (r.1.ids i)) (defragment_pcap_data env b f)
    defragment_pcap_data-InRange v i =
        defragment_cases env b f (Holds (λ r. InRange (r.1.ids i))) (λ _. v i) (λ _ _. v i)
          λ d _ _. stored d
      where
        h : Fields
        h = fields_of env f

        stored :
            (d : Datagram)
            → Holds (λ r. InRange (r.1.ids i)) (store_fragment env (counted env b f) f h d)
        stored d = elim (Bool-cases (i == h.udp_pkt_id)) [
          | inl e ↦
              rw ((==_iff i h.udp_pkt_id).0 e)
                (store_fragment-InRange (counted env b f) f h d (v h.udp_pkt_id))
          | inr e ↦
              Holds-map (λ r. r.1.ids i ≡ b.ids i) (λ r. InRange (r.1.ids i)) (λ r k. rw k (v i))
                (store_fragment env (counted env b f) f h d)
                (store_fragment-keeps (counted env b f) f h d i (ground arith))
        ]

    -- While every slot's position is one that `ring_addr` has, a call that returns keeps it so.
    pub defragment_pcap_data-AllInRange :
        AllInRange b → Holds (λ r. AllInRange r.1) (defragment_pcap_data env b f)
    defragment_pcap_data-AllInRange v =
        Holds-all (λ i r. InRange (r.1.ids i)) (defragment_pcap_data env b f)
          (defragment_pcap_data-InRange v)
