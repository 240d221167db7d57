-- ===== src/Defrag/Frame/Reads.antt =====
-- Which bytes of the frame the producer reads, against what was captured.
use vs_slns.Base.{◌+◌, ◌-◌, ◌≤◌, ◌<◌, ◌≡◌, ◌≢◌, none, some, arith, update, sub16}
use vs_slns.Defrag.Types.{Env, CapturedFrame}
use vs_slns.Defrag.Frame.{Fields, Datagram, frame_fields, datagram}
use vs_slns.Defrag.Frame.Checks.{frame_fields-IsUdpFrame, frame_fields_value}

module _ (env : Env) (ether : env.size_ethernet ≡ 14) (udp : env.udp_layer_hdr_sz ≡ 8) where
  -- If the IPv4 header was captured whole, the bytes of a later fragment that the producer copies
  -- were all captured.
  pub frag_len_captured :
      (f : CapturedFrame) {h : Fields} {d : Datagram}
      → frame_fields env f ≡ some h
      → datagram env f h ≡ some d
      → 14 + h.pkt_hdr_len ≤ f.caplen
      → h.frag_offset ≢ 0
      → d.payload + h.frag_len ≤ f.caplen
  unfolding datagram
  frag_len_captured f {h} {d} e k c ne =
      ground (arith, frame_fields_value env f e, frame_fields-IsUdpFrame env f e)

  -- If the UDP header was captured too, so were the bytes of a first fragment that are copied.
  pub first_captured :
      (f : CapturedFrame) {h : Fields} {d : Datagram}
      → frame_fields env f ≡ some h
      → datagram env f h ≡ some d
      → 14 + h.pkt_hdr_len + 8 ≤ f.caplen
      → h.frag_offset ≡ 0
      → d.payload + sub16 h.frag_len 8 ≤ f.caplen
  unfolding datagram
  first_captured f {h} {d} e k c ne =
      ground (arith, frame_fields_value env f e, frame_fields-IsUdpFrame env f e)

  -- If the capture ends inside the IPv4 header, an accepted frame's fragment is not cut at all: the
  -- difference wraps, and every byte that the header claims is taken, though none was captured.
  pub short_capture_unclipped :
      (f : CapturedFrame) {h : Fields}
      → frame_fields env f ≡ some h
      → f.caplen < 14 + h.pkt_hdr_len
      → h.pkt_hdr_len ≤ h.total_length
      → h.frag_len ≡ h.total_length - h.pkt_hdr_len
  unfolding frame_fields
  short_capture_unclipped f {h} e c t =
      ground (arith, frame_fields_value env f e, frame_fields-IsUdpFrame env f e)

  -- A frame of 20 to 23 captured bytes may be accepted, and then the decision rests on a byte behind
  -- the capture: with another value at offset 23 the same capture is rejected.
  pub decision_beyond_capture :
      (f : CapturedFrame) {h : Fields}
      → frame_fields env f ≡ some h
      → f.caplen ≤ 23
      → frame_fields env (record f { bytes = update f.bytes 23 0 }) ≡ none
  unfolding frame_fields
  decision_beyond_capture f {h} e c = ground arith
