-- ===== src/Defrag/Produce/Whole.antt =====
-- A datagram that is not fragmented: how its payload is taken from the frame, and when the consumer
-- is woken.
use vs_slns.Base.{ℕ, ◌≡◌, refl, sym, ◌∙◌, inl, inr, false, Option-cases}
use vs_slns.Defrag.Types.{Env, Bridge, CapturedFrame}
use vs_slns.Defrag.Frame.{Datagram, fields_of, datagram}
use vs_slns.Defrag.Frame.Checks.{IsUdpFrame, frame_fields-accepts}
use vs_slns.Defrag.Produce.Cases.{counted, defragment_stored, store_fragment_whole}
use vs_slns.Defrag.Produce.{whole_packet, defragment_pcap_data}

module _ (env : Env) (b : Bridge env) (f : CapturedFrame) where
  module _ (n : ℕ) where
    -- The same frame with another captured length.
    abbrev pub recaptured : CapturedFrame
    recaptured = record f { caplen = n }

    datagram_ignores_caplen :
        datagram env recaptured (fields_of env recaptured) ≡ datagram env f (fields_of env f)
    unfolding datagram
    datagram_ignores_caplen = refl

    whole_packet_ignores_caplen :
        (d : Datagram)
        → whole_packet env (counted env b recaptured) recaptured (fields_of env recaptured) d
          ≡ whole_packet env (counted env b f) f (fields_of env f) d
    unfolding whole_packet
    whole_packet_ignores_caplen d = refl

    -- The bytes of an unfragmented datagram are taken by the length in its UDP header alone: another
    -- captured length that passes the header checks too changes nothing. A datagram whose header
    -- claims more than was captured is filled up from behind the capture.
    pub whole_ignores_caplen :
        IsUdpFrame env f
        → IsUdpFrame env recaptured
        → (fields_of env f).frag_offset ≡ 0
        → (fields_of env f).more ≡ false
        → defragment_pcap_data env b recaptured ≡ defragment_pcap_data env b f
    unfolding defragment_pcap_data
    whole_ignores_caplen v w off last = elim (Option-cases (datagram env f (fields_of env f))) [
      | inl e ↦ rw (
        frame_fields-accepts env recaptured w,
        frame_fields-accepts env f v,
        defragment_pcap_data,
        datagram_ignores_caplen,
        e,
      )
      | inr (d, e) ↦
          defragment_stored env b recaptured (frame_fields-accepts env recaptured w)
            (datagram_ignores_caplen ∙ e)
          ∙ store_fragment_whole env (counted env b recaptured) recaptured
              (fields_of env recaptured) d off last
          ∙ whole_packet_ignores_caplen d
          ∙ sym (store_fragment_whole env (counted env b f) f (fields_of env f) d off last)
          ∙ sym (defragment_stored env b f (frame_fields-accepts env f v) e)
    ]
