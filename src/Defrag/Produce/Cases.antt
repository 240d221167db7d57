-- ===== src/Defrag/Produce/Cases.antt =====
-- A frame is rejected by the link and network checks, rejected by the transport checks, or stored.
use vs_slns.Base.{
  ◌≡◌, ap, ◌∙◌, ◌≢◌, inl, inr, true, false, none, some, arith, Option-cases, Status, err_canceled,
  Outcome, returns,
}
use vs_slns.Defrag.Types.{Env, Bridge, CapturedFrame}
use vs_slns.Defrag.Frame.{Fields, Datagram, fields_of, frame_fields, datagram}
use vs_slns.Defrag.Frame.Checks.{frame_fields_value}
use vs_slns.Defrag.Produce.{
  count_bad, count_ipv4, whole_packet, first_fragment, other_fragment, store_fragment,
  defragment_pcap_data,
}

module _ (env : Env) (b : Bridge env) (f : CapturedFrame) where
  -- The bridge when the frame is known to be IPv4 with UDP.
  abbrev pub counted : Bridge env
  counted = record b { counters = count_ipv4 env b.counters }

  pub defragment_cases {ℓ} :
      (P : Outcome (Status × Bridge env) → Type ℓ)
      → (frame_fields env f ≡ none
          → P (returns (err_canceled, record b { counters = count_bad b.counters })))
      → (frame_fields env f ≡ some (fields_of env f)
          → datagram env f (fields_of env f) ≡ none
          → P (returns (err_canceled, record counted { counters = count_bad counted.counters })))
      → ((d : Datagram)
          → frame_fields env f ≡ some (fields_of env f)
          → datagram env f (fields_of env f) ≡ some d
          → P (store_fragment env counted f (fields_of env f) d))
      → P (defragment_pcap_data env b f)
  unfolding defragment_pcap_data
  defragment_cases P bad short stored = elim (Option-cases (frame_fields env f)) [
    | inl e ↦ rw (e, defragment_pcap_data) (bad e)
    | inr (h, e) ↦
        let e' : frame_fields env f ≡ some (fields_of env f) =
          e ∙ ap some (frame_fields_value env f e) in
        elim (Option-cases (datagram env f (fields_of env f))) [
          | inl e2 ↦ rw (e', defragment_pcap_data) (rw e2 (short e' e2))
          | inr (d, e2) ↦ rw (e', defragment_pcap_data) (rw e2 (stored d e' e2))
        ]
  ]

  -- A frame that passes its checks is stored, in the case that its offset and its flag choose.
  pub defragment_stored :
      {d : Datagram}
      → frame_fields env f ≡ some (fields_of env f)
      → datagram env f (fields_of env f) ≡ some d
      → defragment_pcap_data env b f ≡ store_fragment env counted f (fields_of env f) d
  unfolding defragment_pcap_data
  defragment_stored e k = rw (e, defragment_pcap_data) (rw k)

module _ (env : Env) (b : Bridge env) (f : CapturedFrame) (h : Fields) (d : Datagram) where
  pub store_fragment_whole :
      h.frag_offset ≡ 0 → h.more ≡ false → store_fragment env b f h d ≡ whole_packet env b f h d
  unfolding store_fragment
  store_fragment_whole o m = ground arith

  pub store_fragment_first :
      h.frag_offset ≡ 0 → h.more ≡ true → store_fragment env b f h d ≡ first_fragment env b f h d
  unfolding store_fragment
  store_fragment_first o m = ground arith

  pub store_fragment_later :
      h.frag_offset ≢ 0 → store_fragment env b f h d ≡ other_fragment env b f h d
  unfolding store_fragment
  store_fragment_later o = ground arith
